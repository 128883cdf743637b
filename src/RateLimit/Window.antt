-- ===== src/RateLimit/Window.antt =====
-- The limiter over a history of calls: what each operation does to the rows of one key, and the
-- bound on the admitted calls of any window.
pub mod Bound
use lvyou_smsweb.Prelude.{
  ℕ, ◌/◌, ◌≤◌, ◌≡◌, refl, ◌≢◌, Bool, true, ◌&&◌, List, [], ◌∷◌, ◌++◌, arith, String, leb, ◌==◌,
  text_comparable, count, count-filter_imp, if◌then◌else◌,
}
use lvyou_smsweb.Db.{RateEvent}
use lvyou_smsweb.World.{Env, World, Result, ok}
use lvyou_smsweb.RateLimit.{
  RateLimiter, is_row, prune, delete_older, cleanup_rate_events, allow, check_only,
}

-- The calls that the history of a limiter is made of.
pub data Op : Type 0 where
  admit probe : String → Op
  foreign : RateLimiter → String → Op
  sweep : ℕ → Op

-- The stamps of the rows that a call of `allow` for `key` inserted: the newest row's if it admitted.
abbrev stamp : Bool → Result Bool → List RateEvent → List ℕ
stamp mine (ok true) (e ∷ es) = if mine then e.ts ∷ [] else []
stamp mine _ _ = []

abbrev pub Fits : RateLimiter → Op → Type 0
Fits l (admit k) = Unit
Fits l (probe k) = Unit
Fits l (foreign l' k) = l'.scope ≢ l.scope
Fits l (sweep age) = l.period / 1000000 ≤ age

module _ (env : Env) (l : RateLimiter) (key : String) where
  -- One call, with the stamps that it adds for `key`.
  abbrev pub step : Op → World → List ℕ × World
  step (admit k) w = let (r, w') = allow env l k w in (stamp (k == key) r w'.db.rate_events, w')
  step (probe k) w = ([], (check_only env l k w).1)
  step (foreign l' k) w = ([], (allow env l' k w).1)
  step (sweep age) w = ([], (cleanup_rate_events env age w).1)

  -- The stamps of all admitted calls of `key` in a history, the newest first.
  unfoldable pub run : List Op → List ℕ → World → List ℕ
  run [] log w = log
  run (op ∷ ops) log w = let (new, w') = step op w in run ops (new ++ log) w'
