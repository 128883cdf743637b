-- ===== src/Prelude/Decimal.antt =====
-- `str(n)` of a number that is not negative.
use Prim.Native.Char.{Char, code}
use Prim.Native.Nat.{ℕ, zero, suc, ◌+◌, ◌-◌, ◌*◌, ◌/◌, ◌%◌, ◌≤◌, ◌<◌}
use Prim.Native.String.{String, [], ◌∷◌}
use mathlib.Core.Path.{◌≡◌, refl, ap, ◌∙◌}
use mathlib.Core.Bool.{Bool, true, false}
use native.Mathlib.Omega.{arith}
use lvyou_smsweb.Prelude.Tests.{leb, leb→le}
use lvyou_smsweb.Prelude.Text.{digits_value}

abbrev nth_char : ℕ → String → Char
nth_char n [] = "?"
nth_char zero (c ∷ s) = c
nth_char (suc n) (c ∷ s) = nth_char n s

abbrev digit_char : ℕ → Char
digit_char d = nth_char d "0123456789"

-- The digits of `n` before those written so far; a number has no more digits than its value, or
-- one.
unfoldable digits_of : ℕ → ℕ → String → String
digits_of zero n acc = acc
digits_of (suc fuel) n acc = elim (leb n 9) [
  | true ↦ digit_char n ∷ acc
  | false ↦ digits_of fuel (n / 10) (digit_char (n % 10) ∷ acc)
]

unfoldable pub show_ℕ : ℕ → String
unfolding digits_of
show_ℕ n = digits_of (suc n) n []

code-digit_char : (d : ℕ) → d ≤ 9 → code (digit_char d) ≡ 48 + d
code-digit_char zero h = refl
code-digit_char (suc zero) h = refl
code-digit_char (suc (suc zero)) h = refl
code-digit_char (suc (suc (suc zero))) h = refl
code-digit_char (suc (suc (suc (suc zero)))) h = refl
code-digit_char (suc (suc (suc (suc (suc zero))))) h = refl
code-digit_char (suc (suc (suc (suc (suc (suc zero)))))) h = refl
code-digit_char (suc (suc (suc (suc (suc (suc (suc zero))))))) h = refl
code-digit_char (suc (suc (suc (suc (suc (suc (suc (suc zero)))))))) h = refl
code-digit_char (suc (suc (suc (suc (suc (suc (suc (suc (suc zero))))))))) h = refl
code-digit_char (suc (suc (suc (suc (suc (suc (suc (suc (suc (suc n)))))))))) h =
    absurd (omega arith)

digit-step : (n : ℕ) → n / 10 * 10 + (code (digit_char (n % 10)) - 48) ≡ n
digit-step n = omega (arith, code-digit_char (n % 10))

module _ (fuel : ℕ)
    (step : (n : ℕ) (acc : String)
      → n < fuel
      → digits_value 0 (digits_of fuel n acc) ≡ digits_value n acc) where
  digits_value-last :
      (n : ℕ) (acc : String) (b : Bool)
      → n < suc fuel
      → leb n 9 ≡ b
      → digits_value 0 (elim b [
        | true ↦ digit_char n ∷ acc
        | false ↦ digits_of fuel (n / 10) (digit_char (n % 10) ∷ acc)
      ])
        ≡ digits_value n acc
  digits_value-last n acc true h small =
      ap (λ d. digits_value d acc) (omega (arith, leb→le n 9 small, code-digit_char n))
  digits_value-last n acc false h large =
      step (n / 10) (digit_char (n % 10) ∷ acc) (ground arith)
      ∙ ap (λ d. digits_value d acc) (digit-step n)

digits_value-digits_of :
    (fuel n : ℕ) (acc : String)
    → n < fuel
    → digits_value 0 (digits_of fuel n acc) ≡ digits_value n acc
unfolding digits_of
digits_value-digits_of zero n acc h = ground arith
digits_value-digits_of (suc fuel) n acc h =
    digits_value-last fuel (digits_value-digits_of fuel) n acc (leb n 9) h refl

pub digits_value-show_ℕ : (n : ℕ) → digits_value 0 (show_ℕ n) ≡ n
unfolding show_ℕ
digits_value-show_ℕ n = digits_value-digits_of (suc n) n [] (omega arith)
