-- ===== src/RateLimit.antt =====
-- backend/ratelimit.py, and the rate-limit rows of backend/db.py that it counts.
pub mod Window
pub mod Outage
pub mod Limits
use lvyou_smsweb.Prelude.{
  ℕ, ◌-◌, ◌/◌, String, Bool, true, false, not, ◌&&◌, List, ◌∷◌, ltb, leb, ◌==◌, text_comparable,
  filter, count, if◌then◌else◌,
}
use lvyou_smsweb.Db.{RateEvent, Db}
use lvyou_smsweb.World.{Env, Exec, pure, ◌>>=◌, ◌>>◌, try_except, nowts, transact}

-- `WHERE scope=:s AND rkey=:k`
abbrev pub is_row : String → String → RateEvent → Bool
is_row scope key e = e.scope == scope && e.rkey == key

-- `DELETE … WHERE scope=:s AND rkey=:k AND ts < :c`
abbrev pub prune : String → String → ℕ → List RateEvent → List RateEvent
prune scope key cutoff = filter (λ e. not (is_row scope key e && ltb e.ts cutoff))

-- The two statements of `rate_count`.
abbrev pub prune_and_count : String → String → ℕ → Db → Db × ℕ
prune_and_count scope key cutoff db =
    let kept = prune scope key cutoff db.rate_events in
    (record db { rate_events = kept }, count (is_row scope key) kept)

abbrev pub insert_event : RateEvent → Db → Db × Unit {0}
insert_event e db = (record db { rate_events = e ∷ db.rate_events }, tt)

-- `DELETE … WHERE scope=:s AND rkey=:k`
abbrev pub delete_rows : String → String → Db → Db × Unit {0}
delete_rows scope key db =
    (record db { rate_events = filter (λ e. not (is_row scope key e)) db.rate_events }, tt)

-- `DELETE … WHERE ts < :c`
abbrev pub delete_older : ℕ → Db → Db × Unit {0}
delete_older cutoff db =
    (record db { rate_events = filter (λ e. not (ltb e.ts cutoff)) db.rate_events }, tt)

-- `class RateLimiter`; the period in microseconds.
pub record RateLimiter : Type 0 where
  pub scope : String
  pub max_calls : ℕ
  pub period : ℕ

-- `RateLimiter.__init__`, with the module's `_MAX_PERIOD_SEEN` before and after.
unfoldable pub init : String → ℕ → ℕ → ℕ → RateLimiter × ℕ
init scope max_calls period seen = (
  record { scope = scope; max_calls = max_calls; period = period },
  if ltb seen period then period else seen,
)

module _ (env : Env) where
  -- A count that fails reads 0; `period` in microseconds.
  unfoldable pub rate_count : String → String → ℕ → Exec ℕ
  rate_count scope key period = do
    now ← nowts env
    let cutoff = now - period / 1000000
    try_except (transact env (prune_and_count scope key cutoff)) (λ _. pure 0)

  unfoldable pub rate_add : String → String → Exec (Unit {0})
  rate_add scope key =
      try_except
        (do
          now ← nowts env
          transact env (insert_event (record { scope = scope; rkey = key; ts = now })))
        (λ _. pure tt)

  unfoldable pub rate_reset : String → String → Exec (Unit {0})
  rate_reset scope key = try_except (transact env (delete_rows scope key)) (λ _. pure tt)

  -- `max_age` in seconds.
  unfoldable pub cleanup_rate_events : ℕ → Exec (Unit {0})
  cleanup_rate_events max_age =
      try_except (do now ← nowts env; transact env (delete_older (now - max_age))) (λ _. pure tt)

  unfoldable pub allow : RateLimiter → String → Exec Bool
  allow l key = do
    n ← rate_count l.scope key l.period
    if leb l.max_calls n then pure false else do rate_add l.scope key; pure true

  unfoldable pub check_only : RateLimiter → String → Exec Bool
  check_only l key = do n ← rate_count l.scope key l.period; pure (ltb n l.max_calls)

  unfoldable pub record_event : RateLimiter → String → Exec (Unit {0})
  record_event l key = rate_add l.scope key

  unfoldable pub reset : RateLimiter → String → Exec (Unit {0})
  reset l key = rate_reset l.scope key

  -- `max(0, …)` of a difference is the truncated difference.
  unfoldable pub remaining : RateLimiter → String → Exec ℕ
  remaining l key = do n ← rate_count l.scope key l.period; pure (l.max_calls - n)
