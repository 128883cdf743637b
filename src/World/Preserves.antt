-- ===== src/World/Preserves.antt =====
-- Invariants of actions: one rule for each way to build an action.
use lvyou_smsweb.Prelude.{
  All, ◌≡◌, refl, Bool, true, false, Option, none, some, List, [], ◌∷◌, if◌then◌else◌, String, ℕ,
  suc, arith, ap, subst,
}
use lvyou_smsweb.World.Effects.{
  Exc, Result, ok, err, World, Exec, pure, raise, gets, after, ◌>>=◌, caught, try_except, traverse,
}
use lvyou_smsweb.World.{
  Call, bm_login_failure, audit, nowts, send, ask, transact, time, transacted, Env, Entry, or_raise,
}
use lvyou_smsweb.Db.{Db}

-- The action keeps `P`, whether it returns or raises.
pub record Preserves {A : Type 0} (P : World → Type 0) (m : Exec A) : Type 0 where
  pub holds : (w : World) → P w → P (m w).1

module _ {A : Type 0} {P : World → Type 0} where
  pub Preserves-pure : (a : A) → Preserves P (pure a)
  unfolding pure
  Preserves-pure a = record { holds = λ w h. h }

  pub Preserves-raise : (e : Exc) → Preserves P (raise {A = A} e)
  unfolding raise
  Preserves-raise e = record { holds = λ w h. h }

  pub Preserves-gets : (f : World → A) → Preserves P (gets f)
  unfolding gets
  Preserves-gets f = record { holds = λ w h. h }

  pub Preserves-if :
      (b : Bool) (m n : Exec A)
      → (b ≡ true → Preserves P m)
      → (b ≡ false → Preserves P n)
      → Preserves P (if b then m else n)
  Preserves-if true m n hm hn = hm refl
  Preserves-if false m n hm hn = hn refl

  pub Preserves-or_raise : (o : Option A) (e : Exc) → Preserves P (or_raise o e)
  unfolding or_raise
  Preserves-or_raise none e = Preserves-raise e
  Preserves-or_raise (some a) e = Preserves-pure a

  caught-holds :
      (handler : Exc → Exec A)
      → ((e : Exc) → Preserves P (handler e))
      → (r : Result A) (w : World) → P w
      → P (caught handler r w).1
  caught-holds handler hh (ok a) w h = h
  caught-holds handler hh (err e) w h = (hh e).holds w h

  pub Preserves-try :
      (m : Exec A) (handler : Exc → Exec A)
      → Preserves P m
      → ((e : Exc) → Preserves P (handler e))
      → Preserves P (try_except m handler)
  unfolding try_except
  Preserves-try m handler hm hh = record {
    holds = λ w h. let (r, w') = m w in caught-holds handler hh r w' (hm.holds w h);
  }

module _ {A B : Type 0} {P : World → Type 0} where
  pub after-holds :
      (f : A → Exec B)
      → ((a : A) → Preserves P (f a))
      → (r : Result A) (w : World) → P w
      → P (after f r w).1
  after-holds f hf (ok a) w h = (hf a).holds w h
  after-holds f hf (err e) w h = h

  pub Preserves-bind :
      (m : Exec A) (f : A → Exec B)
      → Preserves P m
      → ((a : A) → Preserves P (f a))
      → Preserves P (m >>= f)
  unfolding ◌>>=◌
  Preserves-bind m f hm hf = record {
    holds = λ w h. let (r, w') = m w in after-holds f hf r w' (hm.holds w h);
  }

  after_ok-holds :
      (f : A → Exec B) (r : Result A)
      → ((a : A) → r ≡ ok a → Preserves P (f a))
      → (w : World) → P w
      → P (after f r w).1
  after_ok-holds f (ok a) hf w h = (hf a refl).holds w h
  after_ok-holds f (err e) hf w h = h

  -- The rest of a block may use what the success of its first step tells.
  pub Preserves-bind_ok :
      (m : Exec A) (f : A → Exec B)
      → Preserves P m
      → ((w : World) (a : A) → (m w).0 ≡ ok a → Preserves P (f a))
      → Preserves P (m >>= f)
  unfolding ◌>>=◌
  Preserves-bind_ok m f hm hf = record {
    holds = λ w h. after_ok-holds f (m w).0 (hf w) (m w).1 (hm.holds w h);
  }

module _ {A B : Type 0} where
  after-ok :
      (f : A → Exec B) (r : Result A) (w : World) (b : B)
      → (after f r w).0 ≡ ok b
      → (a : A) × (r ≡ ok a)
  after-ok f (ok a) w b h = (a, refl)
  after-ok f (err e) w b h = ground arith

  -- A block that returns has a first step that returns.
  pub bind-ok :
      (m : Exec A) (f : A → Exec B) (w : World) (b : B)
      → ((m >>= f) w).0 ≡ ok b
      → (a : A) × ((m w).0 ≡ ok a)
  unfolding ◌>>=◌
  bind-ok m f w b h = let (r, w') = m w in after-ok f r w' b h

module _ {A B : Type 0} where
  after-steps :
      (f : A → Exec B) (r : Result A) (w : World) (b : B)
      → (after f r w).0 ≡ ok b
      → (a : A) × ((r ≡ ok a) × ((f a w).0 ≡ ok b))
  after-steps f (ok a) w b h = (a, (refl, h))
  after-steps f (err e) w b h = ground arith

  -- A block that returns returns what its rest does after the first step.
  pub bind-steps :
      (m : Exec A) (f : A → Exec B) (w : World) (b : B)
      → ((m >>= f) w).0 ≡ ok b
      → (a : A) × (((m w).0 ≡ ok a) × ((f a (m w).1).0 ≡ ok b))
  unfolding ◌>>=◌
  bind-steps m f w b h = let (r, w') = m w in after-steps f r w' b h

module _ {A B : Type 0} {P : World → Type 0} where
  pub Preserves-traverse :
      (f : A → Exec B) (xs : List A) → ((a : A) → Preserves P (f a)) → Preserves P (traverse f xs)
  unfolding traverse
  Preserves-traverse f [] hf = Preserves-pure []
  Preserves-traverse f (x ∷ xs) hf =
      Preserves-bind (f x) _ (hf x) (λ y.
        Preserves-bind (traverse f xs) _ (Preserves-traverse f xs hf) (λ ys. Preserves-pure _))

  -- Where only some arguments are allowed.
  pub Preserves-traverse-All :
      (K : A → Type 0) (f : A → Exec B) (xs : List A)
      → ((a : A) → K a → Preserves P (f a))
      → All K xs
      → Preserves P (traverse f xs)
  unfolding traverse
  Preserves-traverse-All K f [] hf h = Preserves-pure []
  Preserves-traverse-All K f (x ∷ xs) hf (k, h) = Preserves-bind (f x) _ (hf x k) (λ y.
      Preserves-bind (traverse f xs) _ (Preserves-traverse-All K f xs hf h)
        (λ ys. Preserves-pure _))

pub ruleset preserves_rules = (
  Preserves-pure, Preserves-raise, Preserves-gets, Preserves-if, Preserves-or_raise, Preserves-try,
  Preserves-bind, Preserves-traverse,
)

-- A predicate of the database alone, and one of the requests sent to boards alone.
pub record OnDb (Q : Db → Type 0) (w : World) : Type 0 where
  pub at : Q w.db

pub record OnSent (Q : List Call → Type 0) (w : World) : Type 0 where
  pub at : Q w.sent

module _ (Q : Db → Type 0) where
  transacted-OnDb :
      {A : Type 0} (o : Option String) (p : Db × A) (w : World)
      → OnDb Q w
      → Q p.0
      → OnDb Q (transacted o p w).1
  transacted-OnDb none p w h q = record { at = q }
  transacted-OnDb (some e) p w h q = h

  pub OnDb-transact :
      {A : Type 0} (env : Env) (f : Db → Db × A)
      → ((db : Db) → Q db → Q (f db).0)
      → Preserves (OnDb Q) (transact env f)
  unfolding transact
  OnDb-transact env f hf = record {
    holds = λ w h.
        transacted-OnDb (env.db_fails w.tick) (f w.db) (record w { tick = suc w.tick })
          (record { at = h.at }) (hf w.db h.at);
  }

  pub OnDb-ask : {A : Type 0} (f : ℕ → A) → Preserves (OnDb Q) (ask f)
  unfolding ask
  OnDb-ask f = record { holds = λ w h. record { at = h.at } }

  pub OnDb-nowts : (env : Env) → Preserves (OnDb Q) (nowts env)
  unfolding nowts
  OnDb-nowts env = record { holds = λ w h. record { at = h.at } }

  pub OnDb-time : (env : Env) → Preserves (OnDb Q) (time env)
  unfolding time
  OnDb-time env = record { holds = λ w h. record { at = h.at } }

  pub OnDb-send : (env : Env) (c : Call) → Preserves (OnDb Q) (send env c)
  unfolding send
  OnDb-send env c = record { holds = λ w h. record { at = h.at } }

  pub OnDb-audit : (e : Entry) → Preserves (OnDb Q) (audit e)
  unfolding audit
  OnDb-audit e = record { holds = λ w h. record { at = h.at } }

  pub OnDb-bm_login_failure : (r : String) → Preserves (OnDb Q) (bm_login_failure r)
  unfolding bm_login_failure
  OnDb-bm_login_failure r = record { holds = λ w h. record { at = h.at } }

module _ (Q : List Call → Type 0) where
  transacted-OnSent :
      {A : Type 0} (o : Option String) (p : Db × A) (w : World)
      → OnSent Q w
      → OnSent Q (transacted o p w).1
  transacted-OnSent none p w h = record { at = h.at }
  transacted-OnSent (some e) p w h = h

  pub OnSent-transact :
      {A : Type 0} (env : Env) (f : Db → Db × A) → Preserves (OnSent Q) (transact env f)
  unfolding transact
  OnSent-transact env f = record {
    holds = λ w h.
        transacted-OnSent (env.db_fails w.tick) (f w.db) (record w { tick = suc w.tick })
          (record { at = h.at });
  }

  pub OnSent-ask : {A : Type 0} (f : ℕ → A) → Preserves (OnSent Q) (ask f)
  unfolding ask
  OnSent-ask f = record { holds = λ w h. record { at = h.at } }

  pub OnSent-nowts : (env : Env) → Preserves (OnSent Q) (nowts env)
  unfolding nowts
  OnSent-nowts env = record { holds = λ w h. record { at = h.at } }

  pub OnSent-time : (env : Env) → Preserves (OnSent Q) (time env)
  unfolding time
  OnSent-time env = record { holds = λ w h. record { at = h.at } }

  -- A request is sent only where the predicate allows it.
  pub OnSent-send :
      (env : Env) (c : Call)
      → ((sent : List Call) → Q sent → Q (c ∷ sent))
      → Preserves (OnSent Q) (send env c)
  unfolding send
  OnSent-send env c hc = record { holds = λ w h. record { at = hc w.sent h.at } }

  pub OnSent-audit : (e : Entry) → Preserves (OnSent Q) (audit e)
  unfolding audit
  OnSent-audit e = record { holds = λ w h. record { at = h.at } }

pub ruleset db_rules = (
  preserves_rules, OnDb-transact, OnDb-ask, OnDb-nowts, OnDb-time, OnDb-send, OnDb-audit,
  OnDb-bm_login_failure,
)

pub ruleset sent_rules =
    (preserves_rules, OnSent-transact, OnSent-ask, OnSent-nowts, OnSent-time, OnSent-audit)

pub ok-inj : {A : Type 0} {a b : A} → Path (Result A) (ok a) (ok b) → a ≡ b
ok-inj {A} {a} {b} e = ap (λ r. elim r [ ok x ↦ x | err x ↦ a ]) e

module _ {A B : Type 0} (K : A → Type 0) (Q : B → Type 0) (f : A → Exec B) where
  -- What is known of each result of a loop that returns.
  pub traverse-All :
      ((a : A) (w : World) (b : B) → K a → (f a w).0 ≡ ok b → Q b)
      → (xs : List A) (w : World) (ys : List B) → All K xs
      → (traverse f xs w).0 ≡ ok ys
      → All Q ys
  unfolding traverse pure
  traverse-All hf [] w ys h e = subst (All Q) (ok-inj e) tt
  traverse-All hf (x ∷ xs) w ys (k, h) e =
      let (y, (ey, e1)) = bind-steps (f x) _ w ys e in
      let (zs, (ez, e2)) = bind-steps (traverse f xs) _ (f x w).1 ys e1 in
      subst (All Q) (ok-inj e2) (hf x w y k ey, traverse-All hf xs (f x w).1 zs h ez)
