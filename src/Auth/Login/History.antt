-- ===== src/Auth/Login/History.antt =====
-- Histories of logins, and the wrong passwords among them.
use lvyou_smsweb.Auth.Login.{gate_login, try_login}
use lvyou_smsweb.Auth.Http.{check_login_credentials}
use lvyou_smsweb.World.{Env, World, Result, ok, err}
use lvyou_smsweb.RateLimit.{RateLimiter, allow, cleanup_rate_events}
use lvyou_smsweb.RateLimit.Window.Bound.{seconds}
use lvyou_smsweb.Prelude.{
  true, false, [], text_comparable, Bool, ◌≢◌, String, List, ◌/◌, Option, ◌≤◌, ◌&&◌, ℕ, ◌∷◌,
  if◌then◌else◌, ◌==◌, ◌++◌,
}

-- The calls that a history is made of: a login from an address with a name and a password, a call
-- of another limiter, and a sweep of old rows.
pub data Op : Type 0 where
  login : String → String → Option String → Op
  foreign : RateLimiter → String → Op
  sweep : ℕ → Op

abbrev pub Fits : RateLimiter → Op → Type 0
Fits l (login ip username password) = Unit
Fits l (foreign l' k) = l'.scope ≢ l.scope
Fits l (sweep age) = l.period / 1000000 ≤ age

abbrev pub passes : Result (Unit {0}) → Bool
passes (ok _) = true
passes (err e) = false

abbrev pub is_wrong : Result Bool → Bool
is_wrong (ok false) = true
is_wrong (ok true) = false
is_wrong (err e) = false

module _ (env : Env) (l lu : RateLimiter) (key : String) where
  -- The password was looked at, and it or the name is wrong.
  abbrev pub is_guess : String → Option String → World → Bool
  is_guess username password w =
      let (r, w') = gate_login env l lu username key w in
      passes r && is_wrong (check_login_credentials env username password w').0

  -- One call, with the time at which it began if it is a guess from the address.
  abbrev pub step : Op → World → List ℕ × World
  step (login ip username password) w = (
    if ip == key && is_guess username password w then seconds env w.tick ∷ [] else [],
    (try_login env l lu username password ip w).1,
  )
  step (foreign l' k) w = ([], (allow env l' k w).1)
  step (sweep age) w = ([], (cleanup_rate_events env age w).1)

  -- The times of all guesses from the address in a history, the newest first.
  unfoldable pub guesses : List Op → List ℕ → World → List ℕ
  guesses [] log w = log
  guesses (op ∷ ops) log w = let (new, w') = step op w in guesses ops (new ++ log) w'
