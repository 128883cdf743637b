-- ===== src/Prelude/Trim.antt =====
-- What `strip` leaves.
use Prim.Native.Char.{Char}
use Prim.Native.String.{String, [], ◌∷◌}
use mathlib.Core.Path.{◌≡◌, refl, ◌∙◌, ap}
use mathlib.Core.Logic.{inl, inr}
use mathlib.Core.Bool.{false}
use native.Mathlib.Omega.{arith}
use lvyou_smsweb.Prelude.Tests.{Bool-cases}
use lvyou_smsweb.Prelude.Text.{is_space, close_up, lstrip, rstrip, strip}

-- The text does not begin with white space.
abbrev IsTrimmed : String → Type 0
IsTrimmed [] = Unit
IsTrimmed (c ∷ s) = is_space c ≡ false

lstrip-IsTrimmed : (s : String) → IsTrimmed (lstrip s)
unfolding lstrip
lstrip-IsTrimmed [] = tt
lstrip-IsTrimmed (c ∷ s) = ground (arith, lstrip-IsTrimmed s)

lstrip_of_IsTrimmed : (s : String) → IsTrimmed s → lstrip s ≡ s
unfolding lstrip
lstrip_of_IsTrimmed [] h = refl
lstrip_of_IsTrimmed (c ∷ s) h = ground arith

close_up-IsTrimmed : (c : Char) (s : String) → is_space c ≡ false → IsTrimmed (close_up c s)
close_up-IsTrimmed c [] h = ground arith
close_up-IsTrimmed c (d ∷ s) h = h

rstrip-IsTrimmed : (s : String) → IsTrimmed s → IsTrimmed (rstrip s)
unfolding rstrip
rstrip-IsTrimmed [] h = tt
rstrip-IsTrimmed (c ∷ s) h = close_up-IsTrimmed c (rstrip s) h

rstrip-close_up : (c : Char) (s : String) → rstrip s ≡ s → rstrip (close_up c s) ≡ close_up c s
unfolding rstrip
rstrip-close_up c [] h = elim (Bool-cases (is_space c)) [
  | inl e ↦ rw e
  | inr e ↦ rw e (rw (e, close_up))
]
rstrip-close_up c (d ∷ s) h = ap (close_up c) h

rstrip-rstrip : (s : String) → rstrip (rstrip s) ≡ rstrip s
unfolding rstrip
rstrip-rstrip [] = refl
rstrip-rstrip (c ∷ s) = rstrip-close_up c (rstrip s) (rstrip-rstrip s)

pub strip-strip : (s : String) → strip (strip s) ≡ strip s
unfolding strip
strip-strip s =
    ap rstrip
      (lstrip_of_IsTrimmed (rstrip (lstrip s)) (rstrip-IsTrimmed (lstrip s) (lstrip-IsTrimmed s)))
    ∙ rstrip-rstrip (lstrip s)
