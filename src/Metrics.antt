-- ===== src/Metrics.antt =====
-- `_wire_prometheus` of backend/main.py: the route /metrics, its token and its gauges. Counters and
-- the text of an answer are those of a package.
pub mod Scrape
use lvyou_smsweb.World.{Env, Exec, pure, ◌>>=◌, ◌>>◌, try_except, transact, set_gauges}
use lvyou_smsweb.Db.{Db, Device}
use lvyou_smsweb.Auth.Http.{Request, compare_digest}
use lvyou_smsweb.Auth.Gate.{Verdict, answer, forward, token_auth_mw}
use lvyou_smsweb.Prelude.{
  none, some, String, strip, if◌then◌else◌, ℕ, Bool, length, is_empty, not, count, ◌==◌,
  starts_with, skip, text_comparable, false,
}

abbrev pub is_online : Device → Bool
is_online d = elim d.status [ none ↦ false | some status ↦ status == "online" ]

abbrev pub count_devices : Db → Db × ℕ
count_devices db = (db, length db.devices)

abbrev pub count_online : Db → Db × ℕ
count_online db = (db, count is_online db.devices)

module _ (env : Env) where
  unfoldable pub refresh_device_gauges : Exec (Unit {0})
  refresh_device_gauges =
      try_except
        (do
          total ← transact env count_devices
          online ← transact env count_online
          set_gauges (total, online))
        (λ _. pure tt)

  -- A request for /metrics with the text behind "Bearer ".
  unfoldable pub scrape : String → Exec Verdict
  unfolding compare_digest refresh_device_gauges
  scrape supplied = do
    same ← compare_digest supplied env.config.metrics_token
    if same
        then (do refresh_device_gauges; pure forward)
        else pure (answer 401 "metrics token invalid")

  unfoldable pub metrics_auth_mw : Request → Exec Verdict
  unfolding scrape strip
  metrics_auth_mw req =
      if not (req.path == "/metrics")
      then pure forward
      else if not (starts_with req.authorization "Bearer ")
      then pure (answer 401 "metrics token required")
      else scrape (strip (skip 7 req.authorization))

  -- The middleware that was added last is the outermost; without a token it is not added.
  abbrev pub behind_metrics : Request → Verdict → Exec Verdict
  behind_metrics req forward = token_auth_mw env req
  behind_metrics req (answer status detail) = pure (answer status detail)

  unfoldable pub middlewares : Request → Exec Verdict
  unfolding metrics_auth_mw token_auth_mw
  middlewares req =
      if is_empty env.config.metrics_token
      then token_auth_mw env req
      else (do verdict ← metrics_auth_mw req; behind_metrics req verdict)
