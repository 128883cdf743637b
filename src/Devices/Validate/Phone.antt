-- ===== src/Devices/Validate/Phone.antt =====
-- What a telephone number that passes `_validate_phone` looks like.
use Prim.Native.Char.{Char, code}
use Prim.Native.String.{[], ◌∷◌}
use lvyou_smsweb.Prelude.{
  rstrip, String, strip, is_space, Bool, ◌≡◌, false, all_digits, true, arith, refl, ◌==◌,
  text_length, lstrip, close_up, number_comparable, ◌≤◌, Bool-cases, eq_iff, inl, is_digit, inr, ap,
  suc, is_empty, sym,
}
use lvyou_smsweb.Devices.Validate.{drop_plus, digit_run, phone_re, validate_phone}
use lvyou_smsweb.World.{pure, raise, World, ok}

-- Whether the text ends in a line feed.
abbrev pub ends_lf : String → Bool
ends_lf [] = false
ends_lf (c ∷ []) = code c == 10
ends_lf (c ∷ d ∷ s) = ends_lf (d ∷ s)

lf-space : (c : Char) → (code c == 10) ≡ true → is_space c ≡ true
unfolding is_space
lf-space c h = ground arith

close_up-ends : (c : Char) (s : String) → ends_lf s ≡ false → ends_lf (close_up c s) ≡ false
close_up-ends c [] h = elim (Bool-cases (is_space c)) [
  | inl space ↦ rw (space) refl
  | inr word ↦
      rw (word)
        (elim (Bool-cases (code c == 10)) [ inl lf ↦ cc (lf-space c lf, word) | inr other ↦ other ])
]
close_up-ends c (d ∷ s) h = h

rstrip-ends : (s : String) → ends_lf (rstrip s) ≡ false
unfolding rstrip
rstrip-ends [] = refl
rstrip-ends (c ∷ s) = close_up-ends c (rstrip s) (rstrip-ends s)

strip-ends : (s : String) → ends_lf (strip s) ≡ false
unfolding strip
strip-ends s = rstrip-ends (lstrip s)

absurd_bool : {A : Type 0} → false ≡ true → A
absurd_bool h = ground arith

digit_run-lf : (s : String) → (digit_run s).1 ≡ "\n" → ends_lf s ≡ true
digit_run-lf [] h = let e : true ≡ false = ap is_empty h in ground arith
digit_run-lf (c ∷ []) h = elim (Bool-cases (is_digit c)) [
  | inl digit ↦ let e : true ≡ false = ap is_empty (rw (digit) at h) in absurd_bool (sym e)
  | inr other ↦ ap ends_lf (rw (other) at h)
]
digit_run-lf (c ∷ d ∷ s) h = elim (Bool-cases (is_digit c)) [
  | inl digit ↦ digit_run-lf (d ∷ s) (rw (digit) at h)
  | inr other ↦ ap ends_lf (rw (other) at h)
]

digit_run-all :
    (s : String) → (digit_run s).1 ≡ "" → (all_digits s ≡ true) × ((digit_run s).0 ≡ text_length s)
digit_run-all [] h = (refl, refl)
digit_run-all (c ∷ s) h = elim (Bool-cases (is_digit c)) [
  | inl digit ↦
      let ih = digit_run-all s (rw (digit) at h) in (rw (digit) ih.0, rw (digit) (ap suc ih.1))
  | inr other ↦ let e : false ≡ true = ap is_empty (rw (other) at h) in absurd_bool e
]

drop_plus-lf : (s : String) → ends_lf (drop_plus s) ≡ true → ends_lf s ≡ true
drop_plus-lf [] h = h
drop_plus-lf (c ∷ []) h = elim (Bool-cases (code c == 43)) [
  | inl plus ↦ let h' = rw (plus) at h in ground arith
  | inr other ↦ rw (other) at h
]
drop_plus-lf (c ∷ d ∷ s) h = elim (Bool-cases (code c == 43)) [
  | inl plus ↦ rw (plus) at h
  | inr other ↦ rw (other) at h
]

-- A text of 5 to 15 digits, with or without a plus sign before them.
abbrev pub IsPhone : String → Type 0
IsPhone p =
    (all_digits (drop_plus p) ≡ true)
    × ((5 ≤ text_length (drop_plus p)) × (text_length (drop_plus p) ≤ 15))

phone_re-IsPhone : (p : String) → ends_lf p ≡ false → phone_re p ≡ true → IsPhone p
unfolding phone_re
phone_re-IsPhone p h k =
    let lf = digit_run-lf (drop_plus p) in
    let all = digit_run-all (drop_plus p) in
    let drop = drop_plus-lf p in ground (arith, eq_iff (digit_run (drop_plus p)).1 "\n")

-- A telephone number that passes is the text of the request without the white space around it, and
-- it is nothing but 5 to 15 digits, with or without a plus sign before them: `$` in the pattern,
-- which also matches before a final line feed, lets none through. Nothing else changes.
pub validate_phone-IsPhone :
    (phone p : String) (w w' : World)
    → validate_phone phone w ≡ (ok p, w')
    → ((p ≡ strip phone) × (w' ≡ w)) × IsPhone p
unfolding validate_phone pure raise
validate_phone-IsPhone phone p w w' h =
    let good = phone_re-IsPhone (strip phone) (strip-ends phone) in ground arith
