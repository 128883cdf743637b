-- ===== src/Scan/Hosts/Inside.antt =====
-- Whether the addresses that a scan looks at are in the network that it was given.
use Prim.Native.Nat.{min}
use lvyou_smsweb.Prelude.{
  true, false, inl, inr, ℕ, All, ◌≤◌, List, String, map, ◌<◌, [], ◌≡◌, ◌∷◌, ◌+◌, arith, All-append,
  true, suc, if◌then◌else◌, zero, filter-All, nat_beq_iff, ap, Bool, Bool-cases, some, leb, length,
  ◌∙◌, ◌-◌,
}
use lvyou_smsweb.World.{Network, Env}
use lvyou_smsweb.Security.Address.{
  first_hosts, show_v4, host_count, first_host, range, ip_address, parse_v4, v4,
}
use lvyou_smsweb.Security.Address.Networks.{IsNetwork, size, in_block, pow_pos}
use lvyou_smsweb.Security.Address.Printed.{parse_v4-show_v4}
use lvyou_smsweb.Scan.Hosts.{safe_ip_in_net, collect, candidates, ip_list, contains, in_net}

abbrev pub IsInside : Env → Network → String → Type 0
IsInside env net ip = safe_ip_in_net env net ip ≡ true

cut-All :
    (P : String → Type 0) (b : Bool) (xs : List String) → All P xs → All P (if b then [] else xs)
cut-All P true xs h = tt
cut-All P false xs h = h

collect-All :
    (P : String → Type 0) (limit : ℕ) (seen ips : List String)
    → All P ips
    → All P (collect limit seen ips)
unfolding collect
collect-All P limit seen [] h = tt
collect-All P limit seen (ip ∷ ips) (k, h) = elim (Bool-cases (contains seen ip)) [
  | inl old ↦ rw old (cut-All P (leb limit (length seen)) _ (collect-All P limit seen ips h))
  | inr new ↦
      rw new
        (k, cut-All P (leb limit (suc (length seen))) _ (collect-All P limit (ip ∷ seen) ips h))
]

ip_address-v4 :
    (env : Env) (s : String) (x : ℕ) → parse_v4 s ≡ some x → ip_address env s ≡ some (v4 x)
unfolding ip_address
ip_address-v4 env s x h = ground arith

module _ (env : Env) (net : Network) (w : IsNetwork net) where
  host-IsInside :
      (x : ℕ) → net.address ≤ x → x < net.address + size net → IsInside env net (show_v4 x)
  unfolding safe_ip_in_net
  host-IsInside x h k =
      ap (λ o. in_net env o net)
        (ip_address-v4 env (show_v4 x) x (parse_v4-show_v4 x (omega (arith, w.fits))))
      ∙ (nat_beq_iff _ _).1 (in_block net.address (size net) x (pow_pos _) w.aligned h k)

  hosts-IsInside :
      (start n : ℕ)
      → net.address ≤ start
      → start + n ≤ net.address + size net
      → All (IsInside env net) (map show_v4 (range start n))
  hosts-IsInside start zero h k = tt
  hosts-IsInside start (suc n) h k = (
    host-IsInside start h (omega arith),
    hosts-IsInside (suc start) n (omega arith) (omega arith),
  )

  pub first_hosts-IsInside :
      (limit : ℕ) → All (IsInside env net) (map show_v4 (first_hosts limit net))
  unfolding first_hosts
  first_hosts-IsInside limit =
      hosts-IsInside (first_host net) (min limit (host_count net)) (ground arith)
        (ground (arith, pow_pos (32 - net.prefixlen)))

  pub ip_list-IsInside :
      (neighbours : List String) → All (IsInside env net) (ip_list env neighbours net)
  unfolding ip_list candidates
  ip_list-IsInside neighbours =
      collect-All (IsInside env net) _ [] _
        (All-append (IsInside env net) _ _ (filter-All _ neighbours) (first_hosts-IsInside _))
