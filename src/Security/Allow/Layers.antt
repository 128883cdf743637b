-- ===== src/Security/Allow/Layers.antt =====
-- What an address that the allow-list admits is known to be.
use lvyou_smsweb.Security.Allow.{
  check_address, is_internal, is_device_ip_allowed, ensure_device_ip_allowed, local_ipv4_networks,
  set_nets, check_parsed,
}
use lvyou_smsweb.Prelude.{
  ℕ, Bool, String, ◌≡◌, true, ◌||◌, ◌&&◌, Option-cases, arith, some, not, ◌*◌, ◌↔◌, inl, ◌+◌, ◌==◌,
  ◌^◌, inr, number_comparable, List, Option, none,
}
use lvyou_smsweb.World.{Env, ◌>>=◌, World, ok, Exec, Network, Call}
use lvyou_smsweb.Security.Address.{v4, within, Address, ip_address, v6}
use lvyou_smsweb.World.Preserves.{
  Preserves, preserves_rules, Preserves-bind_ok, OnDb, OnSent, sent_rules, db_rules,
}
use lvyou_smsweb.Db.{Db}

-- The first layer admits the address that a text denotes.
pub record IsInternal (env : Env) (ip : String) : Type 0 where
  pub address : Address
  pub parsed : ip_address env ip ≡ some address
  pub internal : is_internal env address ≡ true

check_address_internal :
    (env : Env) (a : Address) (w : World)
    → (check_address env a w).0 ≡ ok true
    → is_internal env a ≡ true
unfolding check_address ◌>>=◌
check_address_internal env (v4 x) w h = ground arith
check_address_internal env (v6 x) w h = ground arith

-- An address that is allowed has passed the first layer.
pub allowed-IsInternal :
    (env : Env) (ip : String) (w : World)
    → (is_device_ip_allowed env ip w).0 ≡ ok true
    → IsInternal env ip
unfolding is_device_ip_allowed ◌>>=◌
allowed-IsInternal env ip w h = elim (Option-cases (ip_address env ip)) [
  | inl unparsed ↦ ground arith
  | inr (a, parsed) ↦ record {
    address = a;
    parsed = parsed;
    internal = check_address_internal env a w (rw (parsed, is_device_ip_allowed) at h);
  }
]

-- RFC 1918: 10.0.0.0/8, 172.16.0.0/12, 192.168.0.0/16.
abbrev pub is_rfc1918 : ℕ → Bool
is_rfc1918 x = within x 24 10 || within x 20 (172 * 16 + 1) || within x 16 (192 * 256 + 168)

-- Blocks that RFC 1918 does not name: 0.0.0.0/8 but for the address 0, 192.0.0.0/24 but for two
-- addresses, the documentation blocks 192.0.2.0/24, 198.51.100.0/24 and 203.0.113.0/24, and the
-- benchmark block 198.18.0.0/15.
abbrev pub is_other_private : ℕ → Bool
is_other_private x =
    (within x 24 0 && not (x == 0))
    || (within x 8 (192 * 65536) && not (x == 192 * 2 ^ 24 + 9 || x == 192 * 2 ^ 24 + 10))
    || within x 8 (192 * 65536 + 2)
    || within x 17 (198 * 128 + 9)
    || within x 8 (198 * 65536 + 51 * 256 + 100)
    || within x 8 (203 * 65536 + 113)

-- The first layer admits an IPv4 address exactly if it lies in an RFC 1918 network or in one of the
-- blocks that `is_other_private` lists.
pub is_internal_v4_iff :
    (env : Env) (x : ℕ)
    → (is_internal env (v4 x) ≡ true) ↔ ((is_rfc1918 x || is_other_private x) ≡ true)
unfolding is_internal
is_internal_v4_iff env x = (λ h. ground arith, λ h. ground arith)

pub ensure-IsInternal :
    (env : Env) (ip : String) (w : World)
    → (ensure_device_ip_allowed env ip w).0 ≡ ok tt
    → IsInternal env ip
unfolding ensure_device_ip_allowed ◌>>=◌
ensure-IsInternal env ip w h = allowed-IsInternal env ip w (ground arith)

-- The check sends nothing, leaves the database, and lets what follows it run only for an internal
-- address.
module _ (env : Env) {P : World → Type 0} where
  check_address-Preserves :
      (a : Address) → Preserves P (local_ipv4_networks env) → Preserves P (check_address env a)
  unfolding check_address
  check_address-Preserves (v4 x) h = search (preserves_rules, h)
  check_address-Preserves (v6 x) h = search preserves_rules

  check_parsed-Preserves :
      (a : Option Address)
      → Preserves P (local_ipv4_networks env)
      → Preserves P (check_parsed env a)
  unfolding check_parsed
  check_parsed-Preserves none h = search preserves_rules
  check_parsed-Preserves (some a) h = check_address-Preserves a h

  pub ensure-Preserves :
      (ip : String)
      → Preserves P (local_ipv4_networks env)
      → Preserves P (ensure_device_ip_allowed env ip)
  unfolding ensure_device_ip_allowed is_device_ip_allowed
  ensure-Preserves ip h = search (preserves_rules, check_parsed-Preserves)

  pub ensure-bind :
      {A : Type 0} (ip : String) (k : Unit {0} → Exec A)
      → Preserves P (local_ipv4_networks env)
      → (IsInternal env ip → Preserves P (k tt))
      → Preserves P (ensure_device_ip_allowed env ip >>= k)
  ensure-bind ip k h hk =
      Preserves-bind_ok (ensure_device_ip_allowed env ip) k (ensure-Preserves ip h)
        (λ w _ e. hk (ensure-IsInternal env ip w e))

set_nets-OnSent :
    (Q : List Call → Type 0) (entry : ℕ × List Network) → Preserves (OnSent Q) (set_nets entry)
unfolding set_nets
set_nets-OnSent Q entry = record { holds = λ w h. record { at = h.at } }

pub local_ipv4_networks-OnSent :
    (Q : List Call → Type 0) (env : Env) → Preserves (OnSent Q) (local_ipv4_networks env)
unfolding local_ipv4_networks
local_ipv4_networks-OnSent Q env = search (sent_rules, set_nets-OnSent) depth 12

set_nets-OnDb : (Q : Db → Type 0) (entry : ℕ × List Network) → Preserves (OnDb Q) (set_nets entry)
unfolding set_nets
set_nets-OnDb Q entry = record { holds = λ w h. record { at = h.at } }

pub local_ipv4_networks-OnDb :
    (Q : Db → Type 0) (env : Env) → Preserves (OnDb Q) (local_ipv4_networks env)
unfolding local_ipv4_networks
local_ipv4_networks-OnDb Q env = search (db_rules, set_nets-OnDb) depth 12
