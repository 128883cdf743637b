-- ===== src/RateLimit/Outage.antt =====
-- `RateLimiter.allow` while the database is out of order.
use lvyou_smsweb.RateLimit.{allow, rate_count, rate_add, RateLimiter}
use lvyou_smsweb.World.{nowts, transact, ask, try_except, ◌>>=◌, pure, Env, World, ok}
use lvyou_smsweb.Prelude.{String, ℕ, ◌≡◌, some, ◌<◌, true, suc, arith}

-- While every statement of the database raises, a limiter with a positive limit admits every call and
-- counts none: it fails open.
pub allow-open :
    (env : Env) (l : RateLimiter) (key : String) (w : World) (problem : ℕ → String)
    → ((n : ℕ) → env.db_fails n ≡ some (problem n))
    → 0 < l.max_calls
    → ((allow env l key w).0 ≡ ok true) × ((allow env l key w).1.db ≡ w.db)
unfolding allow rate_count rate_add nowts transact ask try_except ◌>>=◌ pure
allow-open env l key w problem h k = ground (arith, h (suc w.tick), h (suc (suc (suc w.tick))))
