-- ===== src/World/Results.antt =====
-- What is known of the value that an action returns.
use lvyou_smsweb.Prelude.{
  Option, ◌≡◌, Bool, if◌then◌else◌, subst, arith, true, Each, sym, false, some, refl, none,
}
use lvyou_smsweb.World.Effects.{Exec, World}
use lvyou_smsweb.World.Preserves.{bind-steps, ok-inj}
use lvyou_smsweb.World.{
  ◌>>=◌, or_raise, pure, Result, try_except, raise, ok, Exc, caught, after, err,
}

-- The value has the property, if the action returns.
abbrev pub Gives : {A : Type 0} → (A → Type 0) → Exec A → Type 0
Gives {A} Q m = (w : World) (a : A) → (m w).0 ≡ ok a → Q a

-- The action returns, and the value has the property.
abbrev pub Yields : {A : Type 0} → (A → Type 0) → Exec A → Type 0
Yields {A} Q m = (w : World) → (a : A) × (((m w).0 ≡ ok a) × Q a)

module _ {A : Type 0} (Q : A → Type 0) where
  pub Gives-pure : (a : A) → Q a → Gives Q (pure a)
  unfolding pure
  Gives-pure a q w b e = subst Q (ok-inj e) q

  pub Gives-raise : (e : Exc) → Gives Q (raise e)
  unfolding raise
  Gives-raise e w b h = ground arith

  pub Gives-or_raise : (o : Option A) (e : Exc) → Each Q o → Gives Q (or_raise o e)
  unfolding or_raise
  Gives-or_raise none e h = Gives-raise e
  Gives-or_raise (some a) e h = Gives-pure a h

  pub Gives-if : (b : Bool) (m n : Exec A) → Gives Q m → Gives Q n → Gives Q (if b then m else n)
  Gives-if true m n hm hn = hm
  Gives-if false m n hm hn = hn

  caught-Yields :
      (d : A) (r : Result A) (w : World)
      → Q d
      → ((a : A) → r ≡ ok a → Q a)
      → (a : A) × (((caught (λ _. pure d) r w).0 ≡ ok a) × Q a)
  unfolding pure
  caught-Yields d (ok a) w q h = (a, (refl, h a refl))
  caught-Yields d (err e) w q h = (d, (refl, q))

  -- `try: m` with a default value for every exception.
  pub Yields-try : (m : Exec A) (d : A) → Q d → Gives Q m → Yields Q (try_except m (λ _. pure d))
  unfolding try_except
  Yields-try m d q h w = caught-Yields d (m w).0 (m w).1 q (h w)

module _ {A B : Type 0} (P : A → Type 0) (Q : B → Type 0) (m : Exec A) (f : A → Exec B) where
  pub Gives-bind : Gives P m → ((a : A) → P a → Gives Q (f a)) → Gives Q (m >>= f)
  Gives-bind hm hf w b e = let (a, (ea, eb)) = bind-steps m f w b e in hf a (hm w a ea) (m w).1 b eb

  after-Yields :
      (r : Result A) (w : World) (a : A)
      → r ≡ ok a
      → ((b : B) × (((f a w).0 ≡ ok b) × Q b))
      → (b : B) × (((after f r w).0 ≡ ok b) × Q b)
  after-Yields r w a e h = subst (λ s. (b : B) × (((after f s w).0 ≡ ok b) × Q b)) (sym e) h

  pub Yields-bind : Yields P m → ((a : A) → P a → Yields Q (f a)) → Yields Q (m >>= f)
  unfolding ◌>>=◌
  Yields-bind hm hf w = let (a, (e, p)) = hm w in after-Yields (m w).0 (m w).1 a e (hf a p (m w).1)
