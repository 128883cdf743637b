-- ===== src/Security/Allow.antt =====
-- `local_ipv4_networks` and `is_device_ip_allowed` of backend/security.py, and the wrapper of the
-- latter in backend/device_client.py.
pub mod Layers
use lvyou_smsweb.World.{Env, Exec, Network, http, pure, raise, gets, ask, time, ok, ◌>>=◌, ◌>>◌}
use lvyou_smsweb.Security.Address.{
  v4, v6, is_special_v4, Address, is_private_v4, ip_address, is_special_v6, is_private_v6,
  is_site_local_v6, ip_network, in_network,
}
use lvyou_smsweb.Prelude.{
  ℕ, String, Option, List, [], ◌∷◌, Bool, false, some, if◌then◌else◌, not, ◌&&◌, split_words,
  split_lines, ◌==◌, true, ltb, ◌||◌, strip, ◌+◌, none, ◌++◌, any, text_comparable,
}

-- The networks of one line of `ip -o -4 addr show`.
unfoldable pub line_network : Env → List String → List Network
line_network env (n ∷ iface ∷ family ∷ cidr ∷ rest) =
    if iface == "lo" then [] else elim (ip_network env cidr) [ none ↦ [] | some net ↦ net ∷ [] ]
line_network env _ = []

abbrev pub each_line : Env → List String → List Network
each_line env [] = []
each_line env (line ∷ lines) = line_network env (split_words (strip line)) ++ each_line env lines

-- A command that fails leaves no networks.
unfoldable pub parse_addr_show : Env → Option String → List Network
parse_addr_show env none = []
parse_addr_show env (some txt) = each_line env (split_lines (strip txt))

abbrev pub is_nonempty : List Network → Bool
is_nonempty [] = false
is_nonempty (net ∷ nets) = true

-- `cached and now - cached_at < LOCAL_NETS_CACHE_TTL`
abbrev pub is_fresh : Env → ℕ → ℕ × List Network → Bool
is_fresh env now (cached_at, cached) =
    is_nonempty cached && ltb now (cached_at + env.config.local_nets_cache_ttl)

unfoldable pub set_nets : ℕ × List Network → Exec (Unit {0})
set_nets entry w = (ok tt, record w { nets = entry })

module _ (env : Env) where
  -- The cache is asked again once the lock is held.
  unfoldable pub local_ipv4_networks : Exec (List Network)
  unfolding set_nets
  local_ipv4_networks = do
    now ← time env
    before ← gets (λ w. w.nets)
    if is_fresh env now before then pure before.1 else do
      locked ← gets (λ w. w.nets)
      if is_fresh env now locked then pure locked.1 else do
        txt ← ask env.addr_show
        set_nets (now, parse_addr_show env txt)
        pure (parse_addr_show env txt)

  -- The first layer: what the address alone says.
  unfoldable pub is_internal : Address → Bool
  unfolding is_special_v4 is_private_v4 is_special_v6 is_private_v6 is_site_local_v6
  is_internal (v4 x) = not (is_special_v4 x) && is_private_v4 x
  is_internal (v6 x) = not (is_special_v6 x) && (is_private_v6 x || is_site_local_v6 x)

  -- The second layer, for IPv4: a network that the host is attached to, if it has any.
  unfoldable pub is_attached : ℕ → List Network → Bool
  is_attached x nets = not (is_nonempty nets) || any (in_network x) nets

  unfoldable pub check_address : Address → Exec Bool
  unfolding is_attached
  check_address (v4 x) =
      if is_internal (v4 x)
      then (do nets ← local_ipv4_networks; pure (is_attached x nets))
      else pure false
  check_address (v6 x) = pure (is_internal (v6 x))

  unfoldable pub check_parsed : Option Address → Exec Bool
  unfolding check_address
  check_parsed none = pure false
  check_parsed (some a) = check_address a

  unfoldable pub is_device_ip_allowed : String → Exec Bool
  unfolding check_parsed
  is_device_ip_allowed ip = check_parsed (ip_address env ip)

  unfoldable pub ensure_device_ip_allowed : String → Exec (Unit {0})
  unfolding is_device_ip_allowed
  ensure_device_ip_allowed ip = do
    allowed ← is_device_ip_allowed ip
    if allowed then pure tt else raise (http 400 "设备 IP 不在允许的内网范围内")
