-- ===== src/Security/Address/Networks.antt =====
-- The networks that `ip_network` returns.
use native.Mathlib.Nat.{
  mul_assoc, mul_comm, one-le-pow, div-eq_of_lt-le, mul-div_cancel, add-mul, mul-le-mul_right,
  div-lt_iff_lt-mul, pow-suc,
}
use lvyou_smsweb.Prelude.{
  Each, Each-intro, true, false, zero, suc, ap, ℕ, ◌≡◌, ◌≤◌, ◌<◌, arith, ◌+◌, ◌*◌, ◌^◌, ◌/◌, ◌-◌,
  String, Option, List, some, split_at, All, ◌∷◌, none, [], refl, Bool, ◌∙◌, leb, digits_value,
  if◌then◌else◌, leb→le, not, is_empty, ◌&&◌, all_digits,
}
use lvyou_smsweb.World.{Network, Env}
use lvyou_smsweb.Security.Address.{
  parse_octet, parse_v4, ip_network, octets, quad, parse_network, network_of, prefix_length,
}

abbrev pub size : Network → ℕ
size net = 2 ^ (32 - net.prefixlen)

-- An aligned block of addresses below 2 ^ 32.
pub record IsNetwork (net : Network) : Type 0 where
  pub aligned : net.address / size net * size net ≡ net.address
  pub fits : net.address + size net ≤ 2 ^ 32
  pub short : net.prefixlen ≤ 32

one_mul : (n : ℕ) → 1 * n ≡ n
one_mul n = omega arith

pow_split : (a b : ℕ) → 2 ^ a * 2 ^ b ≡ 2 ^ (a + b)
pow_split zero b = one_mul (2 ^ b) ∙ ap (λ n. 2 ^ n) (omega arith)
pow_split (suc a) b =
    let e : suc a + b ≡ suc (a + b) = omega arith in
    cc (
      pow_split a b,
      mul_assoc (2 ^ a) 2 (2 ^ b),
      mul_comm 2 (2 ^ b),
      mul_assoc (2 ^ a) (2 ^ b) 2,
      pow-suc 2 a,
      pow-suc 2 (a + b),
      e,
    )

pub pow_pos : (a : ℕ) → 0 < 2 ^ a
pow_pos a = one-le-pow a 2 (omega arith)

block : (x k n : ℕ) → 0 < k → x < n * k → (x / k * k / k * k ≡ x / k * k) × (x / k * k + k ≤ n * k)
block x k n h l = (
  ap (λ q. q * k) (mul-div_cancel (x / k) h),
  omega (
    arith,
    add-mul (x / k) 1 k,
    mul-le-mul_right {m = x / k + 1} {n = n} k (omega (arith, (div-lt_iff_lt-mul h).1 l)),
  ),
)

pub in_block : (a k x : ℕ) → 0 < k → a / k * k ≡ a → a ≤ x → x < a + k → x / k ≡ a / k
in_block a k x h e l m = div-eq_of_lt-le k (omega arith) (omega (arith, add-mul (a / k) 1 k))

octet-bound : (s : String) (n : ℕ) → parse_octet s ≡ some n → n ≤ 255
unfolding parse_octet
octet-bound s n h = ground arith

abbrev AreSmall : List ℕ → Type 0
AreSmall ns = All (λ n. n ≤ 255) ns

octets-bound : (ss : List String) → Each AreSmall (octets ss)
octets-bound [] = tt
octets-bound (s ∷ ss) =
    cons (parse_octet s) (Each-intro (λ n. n ≤ 255) _ (octet-bound s)) (octets ss) (octets-bound ss)
  where
    cons :
        (o : Option ℕ)
        → Each (λ n. n ≤ 255) o
        → (r : Option (List ℕ)) → Each AreSmall r
        → Each AreSmall
            (elim o [ none ↦ none | some n ↦ elim r [ none ↦ none | some ns ↦ some (n ∷ ns) ] ])
    cons none h r k = tt
    cons (some n) h none k = tt
    cons (some n) h (some ns) k = (h, k)

quad-bound : (o : Option (List ℕ)) → Each AreSmall o → Each (λ x. x < 2 ^ 32) (quad o)
quad-bound none h = tt
quad-bound (some (a ∷ b ∷ c ∷ d ∷ [])) h = ground arith
quad-bound (some []) h = tt
quad-bound (some (a ∷ [])) h = tt
quad-bound (some (a ∷ b ∷ [])) h = tt
quad-bound (some (a ∷ b ∷ c ∷ [])) h = tt
quad-bound (some (a ∷ b ∷ c ∷ d ∷ f ∷ r)) h = tt

parse_v4-bound : (s : String) → Each (λ x. x < 2 ^ 32) (parse_v4 s)
unfolding parse_v4
parse_v4-bound s = quad-bound (octets (split_at b'.' s)) (octets-bound (split_at b'.' s))

cleared-IsNetwork :
    (x p : ℕ)
    → x < 2 ^ 32
    → p ≤ 32
    → IsNetwork (record { address = x / 2 ^ (32 - p) * 2 ^ (32 - p); prefixlen = p })
cleared-IsNetwork x p h k =
    let whole : p + (32 - p) ≡ 32 = omega arith in
    let e : 2 ^ p * 2 ^ (32 - p) ≡ 2 ^ 32 = pow_split p (32 - p) ∙ ap (λ n. 2 ^ n) whole in
    let (a, f) = block x (2 ^ (32 - p)) (2 ^ p) (pow_pos (32 - p)) (omega (arith, e)) in
    record { aligned = a; fits = omega (arith, e, f); short = k }

module _ (env : Env) (mask-bound : (s : String) → Each (λ p. p ≤ 32) (env.parse_mask s)) where
  prefix-bound : (s : String) → Each (λ p. p ≤ 32) (prefix_length env s)
  prefix-bound s = digits (not (is_empty s) && all_digits s) (leb (digits_value 0 s) 32) refl
    where
      digits :
          (b c : Bool)
          → leb (digits_value 0 s) 32 ≡ c
          → Each
              (λ p. p ≤ 32)
              (if b then (if c then some (digits_value 0 s) else none) else env.parse_mask s)
      digits true true h = leb→le _ _ h
      digits true false h = tt
      digits false c h = mask-bound s

  network_of-IsNetwork :
      (a p : Option ℕ)
      → Each (λ x. x < 2 ^ 32) a
      → Each (λ n. n ≤ 32) p
      → Each IsNetwork (network_of env a p)
  network_of-IsNetwork none p ha hp = tt
  network_of-IsNetwork (some x) none ha hp = tt
  network_of-IsNetwork (some x) (some p) ha hp = cleared-IsNetwork x p ha hp

  parse_network-IsNetwork : (parts : List String) → Each IsNetwork (parse_network env parts)
  parse_network-IsNetwork [] = tt
  parse_network-IsNetwork (a ∷ []) =
      network_of-IsNetwork (parse_v4 a) (some 32) (parse_v4-bound a) (omega arith)
  parse_network-IsNetwork (a ∷ p ∷ []) =
      network_of-IsNetwork (parse_v4 a) (prefix_length env p) (parse_v4-bound a) (prefix-bound p)
  parse_network-IsNetwork (a ∷ p ∷ q ∷ r) = tt

  pub ip_network-IsNetwork : (s : String) → Each IsNetwork (ip_network env s)
  unfolding ip_network
  ip_network-IsNetwork s = parse_network-IsNetwork (split_at b'/' s)
