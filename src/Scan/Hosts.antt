-- ===== src/Scan/Hosts.antt =====
-- The addresses that a scan looks at: the neighbours in the network, then its hosts, each once, up
-- to a limit.
pub mod Bounds
pub mod Inside
use Prim.Native.Nat.{min}
use lvyou_smsweb.Prelude.{
  List, ℕ, String, if◌then◌else◌, [], Option, suc, reverse, ◌∷◌, leb, filter, Bool, join, ◌^◌, zero,
  some, ◌/◌, any, ◌++◌, length, ◌+◌, ◌==◌, ◌-◌, ◌%◌, map, text_comparable, false,
}
use lvyou_smsweb.World.{Network, Env}
use lvyou_smsweb.Security.Address.{ip_address, Address, v4, in_network, first_hosts, show_v4}

abbrev pub contains : List String → String → Bool
contains xs x = any (λ y. y == x) xs

-- The loop over the candidates: `seen` is the set, which has an element for each one in `iplist`;
-- the result is what the loop appends to the list from here on.
unfoldable pub collect : ℕ → List String → List String → List String
collect limit seen [] = []
collect limit seen (ip ∷ ips) =
    let seen' = if contains seen ip then seen else ip ∷ seen in
    let rest = collect limit seen' ips in
    let more = if leb limit (length seen') then [] else rest in
    if contains seen ip then more else ip ∷ more

module _ (env : Env) where
  -- `_safe_ip_in_net`
  abbrev pub in_net : Option Address → Network → Bool
  in_net (some (v4 x)) net = in_network x net
  in_net _ net = false

  unfoldable pub safe_ip_in_net : Network → String → Bool
  unfolding ip_address
  safe_ip_in_net net ip = in_net (ip_address env ip) net

  unfoldable pub candidates : List String → Network → List String
  unfolding safe_ip_in_net first_hosts
  candidates neighbours net =
      filter (safe_ip_in_net net) neighbours
      ++ map (show_v4) (first_hosts env.config.cidr_fallback_limit net)

  unfoldable pub ip_list : List String → Network → List String
  unfolding candidates collect
  ip_list neighbours net = collect env.config.cidr_fallback_limit [] (candidates neighbours net)
