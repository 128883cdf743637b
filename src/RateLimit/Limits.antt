-- ===== src/RateLimit/Limits.antt =====
-- The limiters that backend/main.py makes when it is loaded.
use lvyou_smsweb.RateLimit.{RateLimiter, init}
use lvyou_smsweb.Prelude.{ℕ, String}

pub record Limiters : Type 0 where
  pub sms : RateLimiter
  pub dial : RateLimiter
  pub login_ip : RateLimiter
  pub login_user : RateLimiter
  pub ota : RateLimiter

-- `calls` and `period` read a variable of the process that is a number, with its default; the
-- period is read in seconds and given in microseconds. Beside the limiters stands the longest period
-- that was seen, which the sweep of old rows asks.
module _ (calls period : String → ℕ → ℕ) where
  unfoldable pub limiters : Limiters × ℕ
  limiters =
      let (sms, seen) =
        init "sms" (calls "BMSMSRATELIMIT" 10) (period "BMSMSRATEPERIOD" 60) 60000000 in
      let (dial, seen) =
        init "dial" (calls "BMDIALRATELIMIT" 5) (period "BMDIALRATEPERIOD" 60) seen in
      let (login_ip, seen) =
        init "login_ip" (calls "BMLOGINRATELIMIT" 5) (period "BMLOGINRATEPERIOD" 60) seen in
      let (login_user, seen) =
        init "login_user" (calls "BMLOGINUSERRATELIMIT" 10) (period "BMLOGINUSERRATEPERIOD" 600)
          seen in
      let (ota, seen) = init "ota" (calls "BMOTARATELIMIT" 4) (period "BMOTARATEPERIOD" 60) seen in
      (
        record { sms = sms; dial = dial; login_ip = login_ip; login_user = login_user; ota = ota },
        seen,
      )
