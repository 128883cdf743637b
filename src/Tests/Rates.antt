-- ===== src/Tests/Rates.antt =====
-- The rate limiter, and the guesses of passwords that it bounds.
use lvyou_smsweb.Tests.Sample.{env, world, forwards}
use lvyou_smsweb.RateLimit.{RateLimiter, allow, rate_count, rate_add, cleanup_rate_events, init}
use lvyou_smsweb.Prelude.{
  List, count, leb, ◌&&◌, ◌∷◌, [], ◌≤◌, arith, refl, ◌≡◌, eq_iff, ℕ, if◌then◌else◌, ◌==◌, ◌*◌,
}
use lvyou_smsweb.RateLimit.Window.{run, Op}
use lvyou_smsweb.RateLimit.Limits.{Limiters, limiters}
use lvyou_smsweb.Prelude.{text_comparable}
use lvyou_smsweb.Auth.Login.Outcome.{locked_out, login_complete, IsReply}
use lvyou_smsweb.World.{err, ok, http, World}
use lvyou_smsweb.Tests.Sample.{db}
use lvyou_smsweb.Auth.Login.History
use lvyou_smsweb.Auth.Login.History.{guesses}
use lvyou_smsweb.Auth.Login.Guesses.{guesses_bounded}
use lvyou_smsweb.RateLimit.{check_only, record_event}
use lvyou_smsweb.Prelude.{some, length}
use lvyou_smsweb.World.{audit, bm_login_failure, raise, pure, nowts, transact, ◌>>=◌, try_except}
use lvyou_smsweb.RateLimit.Window.Bound.{allow_window}
use lvyou_smsweb.Auth.Login.{try_login, gate_login, reject_login, accept_login, LoginReply}
use lvyou_smsweb.Auth.Http.{check_login_credentials, compare_value, compare_digest}

abbrev limiter : RateLimiter
limiter = record { scope = "sms"; max_calls = 2; period = 60000000 }

abbrev calls : List Op
calls = Op.admit "a" ∷ Op.admit "a" ∷ Op.admit "b" ∷ Op.admit "a" ∷ Op.sweep 60 ∷ []

-- The third call for "a" is refused.
two_admitted : run env limiter "a" calls [] world ≡ 6 ∷ 2 ∷ []
unfolding run allow rate_count rate_add cleanup_rate_events nowts transact ◌>>=◌ try_except
two_admitted = refl

allow_window_example : count (λ u. leb 2 u && leb u 62) (run env limiter "a" calls [] world) ≤ 2
allow_window_example =
    allow_window env (λ n. refl) forwards limiter "a" calls world (omega arith) refl 2

-- The limiters of a process that sets no variable but the limit of addresses.
abbrev made : Limiters × ℕ
made =
    limiters (λ name default. if name == "BMLOGINRATELIMIT" then 2 else default)
      (λ name default. default * 1000000)

abbrev by_ip : RateLimiter
by_ip = made.0.login_ip

abbrev by_user : RateLimiter
by_user = made.0.login_user

longest_period : made.1 ≡ 600000000
unfolding limiters init
longest_period = refl

abbrev attempts : List History.Op
attempts =
    History.Op.login "192.168.1.5" "admin" (some "a")
    ∷ History.Op.login "192.168.1.6" "admin" (some "b")
    ∷ History.Op.login "192.168.1.5" "" (some "c")
    ∷ History.Op.sweep 60
    ∷ History.Op.login "192.168.1.5" "admin" (some "s3cret")
    ∷ []

-- The right password comes too late.
two_guesses : length (guesses env by_ip by_user "192.168.1.5" attempts [] world) ≡ 2
unfolding limiters init guesses try_login gate_login reject_login accept_login
    check_login_credentials compare_value compare_digest check_only record_event rate_count rate_add
    cleanup_rate_events nowts transact audit bm_login_failure raise pure ◌>>=◌ try_except
two_guesses = refl

guesses_bounded_example :
    count (λ u. leb 0 u && leb u 60) (guesses env by_ip by_user "192.168.1.5" attempts [] world) ≤ 2
unfolding limiters init
guesses_bounded_example =
    guesses_bounded env (λ n. refl) forwards by_ip by_user
      (λ e. ground (arith, (eq_iff "login_user" "login_ip").1 e)) "192.168.1.5" attempts world
      (tt, (tt, (tt, (omega arith, (tt, tt))))) 0

-- Two wrong passwords are enough here.
abbrev guessed : World
guessed = record world {
  db = record db {
    rate_events =
        record { scope = "login_ip"; rkey = "192.168.1.5"; ts = 0 }
        ∷ record { scope = "login_ip"; rkey = "192.168.1.5"; ts = 0 }
        ∷ [];
  };
}

locked_out_example :
    let (r, w') = try_login env by_ip by_user "admin" (some "s3cret") "192.168.1.5" guessed in
    (r ≡ err (http 429 "登录尝试过于频繁，请稍后再试")) × (w'.db.auth_tokens ≡ [])
unfolding limiters init
locked_out_example =
    locked_out env (λ n. refl) by_ip by_user "admin" (some "s3cret") "192.168.1.5" guessed
      (omega arith)

login_complete_example :
    (reply : LoginReply) × (((try_login env by_ip by_user "admin"
          (some "s3cret")
          "192.168.1.6"
          guessed).0
        ≡ ok reply)
      × IsReply env "admin" reply)
unfolding limiters init check_only rate_count nowts transact ◌>>=◌ try_except pure
login_complete_example =
    login_complete env (λ n. refl) by_ip by_user "admin" "192.168.1.6" guessed refl refl refl
      (omega arith) (omega arith)
