-- ===== src/Security/Address.antt =====
-- The part of Python's `ipaddress` that the backend uses, for IPv4 by its text and for IPv6 by the
-- 128-bit value (the tables are those of Python 3.11, which the Dockerfile names).
pub mod Printed
pub mod Networks
use Prim.Native.Nat.{min}
use lvyou_smsweb.World.{Env, Network}
use lvyou_smsweb.Prelude.{
  ℕ, String, List, split_at, Option, ◌∷◌, Bool, if◌then◌else◌, some, ◌/◌, ◌*◌, ◌==◌, not, none,
  starts_with, ◌||◌, ◌^◌, ◌&&◌, ◌+◌, is_empty, number_comparable, [], text_comparable, ◌-◌,
  all_digits, leb, digits_value, text_length, suc, join, zero, show_ℕ, ◌%◌, concat,
}

pub data Address : Type 0 where
  v4 v6 : ℕ → Address

abbrev pub leading_zero : String → Bool
leading_zero s = starts_with s "0" && not (s == "0")

-- One number of a dotted quad.
unfoldable pub parse_octet : String → Option ℕ
parse_octet s =
    if not (is_empty s)
      && all_digits s
      && leb (text_length s) 3
      && not (leading_zero s)
      && leb (digits_value 0 s) 255
    then some (digits_value 0 s)
    else none

abbrev pub octets : List String → Option (List ℕ)
octets [] = some []
octets (s ∷ rest) = elim (parse_octet s) [
  | none ↦ none
  | some n ↦ elim (octets rest) [ none ↦ none | some ns ↦ some (n ∷ ns) ]
]

abbrev pub quad : Option (List ℕ) → Option ℕ
quad (some (a ∷ b ∷ c ∷ d ∷ [])) = some (a * 2 ^ 24 + b * 2 ^ 16 + c * 2 ^ 8 + d)
quad _ = none

unfoldable pub parse_v4 : String → Option ℕ
unfolding parse_octet split_at
parse_v4 s = quad (octets (split_at b'.' s))

-- The network of `bits` host bits that begins with the number `top` of its other bits.
abbrev pub within : ℕ → ℕ → ℕ → Bool
within x bits top = x / 2 ^ bits == top

unfoldable pub is_loopback_v4 : ℕ → Bool
is_loopback_v4 x = within x 24 127

unfoldable pub is_link_local_v4 : ℕ → Bool
is_link_local_v4 x = within x 16 (169 * 256 + 254)

unfoldable pub is_multicast_v4 : ℕ → Bool
is_multicast_v4 x = within x 28 14

unfoldable pub is_reserved_v4 : ℕ → Bool
is_reserved_v4 x = within x 28 15

-- 192.0.0.9 and 192.0.0.10 are the exceptions of the table.
unfoldable pub is_private_v4 : ℕ → Bool
is_private_v4 x =
    (within x 24 0
      || within x 24 10
      || within x 24 127
      || within x 16 (169 * 256 + 254)
      || within x 20 (172 * 16 + 1)
      || within x 8 (192 * 65536)
      || within x 8 (192 * 65536 + 2)
      || within x 16 (192 * 256 + 168)
      || within x 17 (198 * 128 + 9)
      || within x 8 (198 * 65536 + 51 * 256 + 100)
      || within x 8 (203 * 65536 + 113)
      || within x 28 15)
    && not (x == 192 * 2 ^ 24 + 9 || x == 192 * 2 ^ 24 + 10)

-- The tests that the allow-list refuses an IPv4 address by.
unfoldable pub is_special_v4 : ℕ → Bool
unfolding is_loopback_v4 is_link_local_v4 is_multicast_v4 is_reserved_v4
is_special_v4 x =
    is_loopback_v4 x || is_link_local_v4 x || is_multicast_v4 x || x == 0 || is_reserved_v4 x

unfoldable pub is_reserved_v6 : ℕ → Bool
is_reserved_v6 x =
    within x 120 0
    || within x 120 1
    || within x 121 1
    || within x 122 1
    || within x 123 1
    || within x 124 1
    || within x 125 2
    || within x 125 3
    || within x 125 4
    || within x 125 5
    || within x 125 6
    || within x 124 14
    || within x 123 30
    || within x 122 62
    || within x 119 508

unfoldable pub is_special_v6 : ℕ → Bool
unfolding is_reserved_v6
is_special_v6 x = x == 1 || within x 118 0x3fa || within x 120 0xff || x == 0 || is_reserved_v6 x

-- `is_private` outside the reserved ranges; the second line has the exceptions in 2001::/23.
unfoldable pub is_private_v6 : ℕ → Bool
is_private_v6 x =
    (within x 105 (0x2001 * 128)
      && not (
          x == 0x20010001 * 2 ^ 96 + 1
          || x == 0x20010001 * 2 ^ 96 + 2
          || within x 96 0x20010003
          || within x 80 0x200100040112
          || within x 100 0x2001002
          || within x 100 0x2001003))
    || within x 96 0x20010db8
    || within x 112 0x2002
    || within x 121 0x7e
    || within x 118 0x3fa

-- fec0::/10
unfoldable pub is_site_local_v6 : ℕ → Bool
is_site_local_v6 x = within x 118 0x3fb

-- `addr in net`
abbrev pub in_network : ℕ → Network → Bool
in_network x net = x / 2 ^ (32 - net.prefixlen) == net.address / 2 ^ (32 - net.prefixlen)

-- `str(IPv4Address(x))`
abbrev pub show_v4 : ℕ → String
show_v4 x = join "." (
    show_ℕ (x / 16777216)
    ∷ show_ℕ (x / 65536 % 256)
    ∷ show_ℕ (x / 256 % 256)
    ∷ show_ℕ (x % 256)
    ∷ [])

abbrev pub range : ℕ → ℕ → List ℕ
range start zero = []
range start (suc n) = start ∷ range (suc start) n

-- How many hosts `net.hosts()` has: all addresses of a /31 or /32, else all but the first and last.
abbrev pub host_count : Network → ℕ
host_count net =
    if leb 31 net.prefixlen then 2 ^ (32 - net.prefixlen) else 2 ^ (32 - net.prefixlen) - 2

abbrev pub first_host : Network → ℕ
first_host net = if leb 31 net.prefixlen then net.address else net.address + 1

-- `islice(net.hosts(), limit)`
unfoldable pub first_hosts : ℕ → Network → List ℕ
first_hosts limit net = range (first_host net) (min limit (host_count net))

-- `f"{net.network_address}/{net.prefixlen}"`
abbrev pub show_network : Network → String
show_network net = concat (show_v4 net.address ∷ "/" ∷ show_ℕ net.prefixlen ∷ [])

module _ (env : Env) where
  -- `ip_address(s)`, none where it raises.
  unfoldable pub ip_address : String → Option Address
  unfolding parse_v4
  ip_address s = elim (parse_v4 s) [
    | some x ↦ some (v4 x)
    | none ↦ elim (env.parse_v6 s) [ none ↦ none | some x ↦ some (v6 x) ]
  ]

  abbrev pub prefix_length : String → Option ℕ
  prefix_length s =
      if not (is_empty s) && all_digits s
      then (if leb (digits_value 0 s) 32 then some (digits_value 0 s) else none)
      else env.parse_mask s

  -- The network of an address: `strict=False` clears the host bits.
  abbrev pub network_of : Option ℕ → Option ℕ → Option Network
  network_of (some x) (some p) =
      some (record { address = x / 2 ^ (32 - p) * 2 ^ (32 - p); prefixlen = p })
  network_of _ _ = none

  abbrev pub parse_network : List String → Option Network
  parse_network (a ∷ []) = network_of (parse_v4 a) (some 32)
  parse_network (a ∷ p ∷ []) = network_of (parse_v4 a) (prefix_length p)
  parse_network _ = none

  -- `ip_network(s, strict=False)` where it is an IPv4 network; none where it raises or is another.
  unfoldable pub ip_network : String → Option Network
  unfolding parse_v4 split_at
  ip_network s = parse_network (split_at b'/' s)
