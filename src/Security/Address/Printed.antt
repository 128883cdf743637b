-- ===== src/Security/Address/Printed.antt =====
-- `str(IPv4Address(x))`, and `ip_address` of it.
use Prim.Native.Char.{code}
use Prim.Native.String
use lvyou_smsweb.Security.Address.Networks.{IsNetwork, pow_pos}
use text.Mathlib.TextLemmas.{append-nil, nil-append, cons-append}
use Prim.Native.String.{[], ◌∷◌}
use lvyou_smsweb.Prelude.{
  [], ◌∷◌, split_at, Option, true, show_ℕ, false, ◌<◌, refl, not, ◌&&◌, suc, ◌==◌, some, arith,
  zero, number_comparable, none, join, ◌^◌, nat_beq_iff, ◌∙◌, ◌*◌, ◌+◌, ap, Bool-cases, List, inl,
  inr, ◌≤◌, digits_value-show_ℕ, ◌-◌,
}
use Prim.Native.Char.{Char}
use lvyou_smsweb.Prelude.{is_empty, all_digits, String, ℕ, ◌≡◌, Bool}
use lvyou_smsweb.Security.Address.{
  parse_octet, parse_v4, show_v4, octets, quad, ip_network, show_network, prefix_length,
  parse_network, network_of,
}
use lvyou_smsweb.World.{Env, Network}

-- The separator, by its code, is not in the text.
abbrev is_plain : ℕ → String → Bool
is_plain sep [] = true
is_plain sep (c ∷ s) = not (code c == sep) && is_plain sep s

abbrev reads : Option ℕ → ℕ → Bool
reads none n = false
reads (some m) n = m == n

-- A number as one part of an address, or as the length of a prefix.
abbrev is_part : ℕ → Bool
is_part n =
    reads (parse_octet (show_ℕ n)) n
    && is_plain b'.' (show_ℕ n)
    && is_plain b'/' (show_ℕ n)
    && not (is_empty (show_ℕ n))
    && all_digits (show_ℕ n)

abbrev parts_below : ℕ → Bool
parts_below zero = true
parts_below (suc n) = let rest = parts_below n in is_part n && rest

parts_below_lem : (k n : ℕ) → parts_below k ≡ true → n < k → is_part n ≡ true
parts_below_lem zero n h l = absurd (omega arith)
parts_below_lem (suc k) n h l = elim (Bool-cases (n == k)) [
  | inl same ↦ rw ((nat_beq_iff n k).0 same) (ground arith)
  | inr other ↦ parts_below_lem k n (ground arith) (ground (arith, nat_beq_iff n k))
]

parts : parts_below 256 ≡ true
unfolding parse_octet show_ℕ
parts = refl

split_at-plain :
    (sep : Char) (s t : String)
    → is_plain (code sep) s ≡ true
    → split_at (code sep) (String.◌++◌ s (String.◌++◌ (sep ∷ []) t)) ≡ s ∷ (split_at (code sep) t)
unfolding split_at
split_at-plain sep [] t h =
    ap (split_at (code sep))
      (nil-append _ ∙ cons-append sep [] t ∙ ap (λ u. sep ∷ u) (nil-append t))
    ∙ ground arith
split_at-plain sep (c ∷ s) t h =
    ap (split_at (code sep)) (cons-append c s _) ∙ ground (arith, split_at-plain sep s t)

split_at-last : (sep : ℕ) (s : String) → is_plain sep s ≡ true → split_at sep s ≡ (s ∷ [])
unfolding split_at
split_at-last sep [] h = refl
split_at-last sep (c ∷ s) h = ground (arith, split_at-last sep s)

plain-append :
    (sep : ℕ) (s t : String)
    → is_plain sep s ≡ true
    → is_plain sep t ≡ true
    → is_plain sep (String.◌++◌ s t) ≡ true
plain-append sep [] t h k = ap (is_plain sep) (nil-append t) ∙ k
plain-append sep (c ∷ s) t h k =
    ap (is_plain sep) (cons-append c s t) ∙ ground (arith, plain-append sep s t)

record IsPart (n : ℕ) : Type 0 where
  read : parse_octet (show_ℕ n) ≡ some n
  plain : is_plain b'.' (show_ℕ n) ≡ true
  no_slash : is_plain b'/' (show_ℕ n) ≡ true
  digits : (not (is_empty (show_ℕ n)) && all_digits (show_ℕ n)) ≡ true

reads-some : (o : Option ℕ) (n : ℕ) → reads o n ≡ true → o ≡ some n
reads-some none n h = ground arith
reads-some (some m) n h = ground (arith, nat_beq_iff m n)

IsPart-below : (n : ℕ) → n < 256 → IsPart n
IsPart-below n l =
    let h = parts_below_lem 256 n parts l in
    record {
      read = reads-some _ n (ground arith);
      plain = ground arith;
      no_slash = ground arith;
      digits = ground arith;
    }

octets-cons :
    (s : String) (n : ℕ) (rest : List String) (ns : List ℕ)
    → parse_octet s ≡ some n
    → octets rest ≡ some ns
    → octets (s ∷ rest) ≡ some (n ∷ ns)
octets-cons s n rest ns h k = ground arith

module _ (a b c d : ℕ) (pa : IsPart a) (pb : IsPart b) (pc : IsPart c) (pd : IsPart d) where
  octets-parts : octets (show_ℕ a ∷ show_ℕ b ∷ show_ℕ c ∷ show_ℕ d ∷ []) ≡ some (a ∷ b ∷ c ∷ d ∷ [])
  octets-parts = search (octets-cons, pa.read, pb.read, pc.read, pd.read) depth 8

  split_at-parts :
      split_at b'.' (join "." (show_ℕ a ∷ show_ℕ b ∷ show_ℕ c ∷ show_ℕ d ∷ []))
      ≡ show_ℕ a ∷ show_ℕ b ∷ show_ℕ c ∷ show_ℕ d ∷ []
  split_at-parts =
      split_at-plain "." (show_ℕ a) _ pa.plain
      ∙ ap (λ r. show_ℕ a ∷ r)
          (split_at-plain "." (show_ℕ b) _ pb.plain
            ∙ ap (λ r. show_ℕ b ∷ r)
                (split_at-plain "." (show_ℕ c) _ pc.plain
                  ∙ ap (λ r. show_ℕ c ∷ r) (split_at-last b'.' _ pd.plain)))

  parse_v4-parts :
      parse_v4 (join "." (show_ℕ a ∷ show_ℕ b ∷ show_ℕ c ∷ show_ℕ d ∷ []))
      ≡ some (a * 2 ^ 24 + b * 2 ^ 16 + c * 2 ^ 8 + d)
  unfolding parse_v4
  parse_v4-parts = ap (λ o. quad (octets o)) split_at-parts ∙ ap quad octets-parts

-- Printing an address and parsing the text gives the address back.
pub parse_v4-show_v4 : (x : ℕ) → x < 2 ^ 32 → parse_v4 (show_v4 x) ≡ some x
parse_v4-show_v4 x h =
    parse_v4-parts _ _ _ _ (IsPart-below _ (omega arith)) (IsPart-below _ (omega arith))
      (IsPart-below _ (omega arith)) (IsPart-below _ (omega arith))
    ∙ ap some (omega arith)

dot :
    (s t : String)
    → is_plain b'/' s ≡ true
    → is_plain b'/' t ≡ true
    → is_plain b'/' (String.◌++◌ s (String.◌++◌ "." t)) ≡ true
dot s t h k = plain-append b'/' s _ h (plain-append b'/' "." t refl k)

no_slash_parts :
    (a b c d : ℕ)
    → IsPart a
    → IsPart b
    → IsPart c
    → IsPart d
    → is_plain b'/' (join "." (show_ℕ a ∷ show_ℕ b ∷ show_ℕ c ∷ show_ℕ d ∷ [])) ≡ true
no_slash_parts a b c d pa pb pc pd =
    dot (show_ℕ a) (join "." (show_ℕ b ∷ show_ℕ c ∷ show_ℕ d ∷ [])) pa.no_slash (
      dot (show_ℕ b) (join "." (show_ℕ c ∷ show_ℕ d ∷ [])) pb.no_slash
        (dot (show_ℕ c) (show_ℕ d) pc.no_slash pd.no_slash))

show_v4-no_slash : (x : ℕ) → x < 2 ^ 32 → is_plain b'/' (show_v4 x) ≡ true
show_v4-no_slash x h =
    no_slash_parts _ _ _ _ (IsPart-below _ (omega arith)) (IsPart-below _ (omega arith))
      (IsPart-below _ (omega arith)) (IsPart-below _ (omega arith))

prefix_length-show_ℕ : (env : Env) (p : ℕ) → p ≤ 32 → prefix_length env (show_ℕ p) ≡ some p
prefix_length-show_ℕ env p h =
    let part = IsPart-below p (omega arith) in ground (arith, part.digits, digits_value-show_ℕ p)

show_network-parts :
    (net : Network)
    → IsNetwork net
    → split_at b'/' (show_network net) ≡ (show_v4 net.address ∷ show_ℕ net.prefixlen ∷ [])
show_network-parts net w =
    ap (λ t. split_at b'/' (String.◌++◌ (show_v4 net.address) (String.◌++◌ "/" t))) (append-nil _)
    ∙ split_at-plain "/" (show_v4 net.address) (show_ℕ net.prefixlen)
        (show_v4-no_slash _ (omega (arith, w.fits, pow_pos (32 - net.prefixlen))))
    ∙ ap (λ r. show_v4 net.address ∷ r)
        (split_at-last b'/' _ (IsPart-below net.prefixlen (omega (arith, w.short))).no_slash)

-- Printing a network and parsing the text gives the network back: what `guess_ipv4_cidr` prints is
-- read as the same network, for every aligned block of addresses with a prefix of at most 32 bits.
pub ip_network-show_network :
    (env : Env) (net : Network) → IsNetwork net → ip_network env (show_network net) ≡ some net
unfolding ip_network
ip_network-show_network env net w =
    ap (parse_network env) (show_network-parts net w)
    ∙ ap (λ a. network_of env a (prefix_length env (show_ℕ net.prefixlen)))
        (parse_v4-show_v4 net.address (omega (arith, w.fits, pow_pos (32 - net.prefixlen))))
    ∙ ap (λ p. network_of env (some net.address) p) (prefix_length-show_ℕ env net.prefixlen w.short)
    ∙ ap (λ a. some (record { address = a; prefixlen = net.prefixlen })) w.aligned
