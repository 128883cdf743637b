-- ===== src/Devices/Firmware.antt =====
-- The firmware batches of backend/routes/devices.py.
use lvyou_smsweb.World.{
  Env, Exec, ◌>>◌, raise, http, ◌>>=◌, raise_if, transact, traverse, audit_detail, pure,
}
use lvyou_smsweb.Prelude.{List, ℕ, ◌∷◌, ltb, length, concat, map, [], not, show_ℕ}
use lvyou_smsweb.RateLimit.{RateLimiter, allow}
use lvyou_smsweb.Client.Ota.{
  OtaReply, missing, problem, upgrade_ota_task, check_ota_task, checked, upgraded,
}
use lvyou_smsweb.Json.{Items, nil, cons, null, str, arr}
use lvyou_smsweb.Auth.Http.{Request, client_ip_from_request}
use lvyou_smsweb.DeviceTable.{select_listed}

-- The addresses of the replies, as JSON values; the reply for a missing row has none.
abbrev pub ips_of : List OtaReply → Items
ips_of [] = nil
ips_of (missing id ∷ rs) = cons null (ips_of rs)
ips_of (problem id ip e ∷ rs) = cons (str ip) (ips_of rs)
ips_of (checked id ip b u v ∷ rs) = cons (str ip) (ips_of rs)
ips_of (upgraded id ip b v ∷ rs) = cons (str ip) (ips_of rs)

module _ (env : Env) (ota_limiter : RateLimiter) where
  unfoldable pub check_ota_batch_allowed : Request → List ℕ → Exec (Unit {0})
  unfolding client_ip_from_request
  check_ota_batch_allowed request [] = raise (http 400 "device_ids required")
  check_ota_batch_allowed request (i ∷ ids) = do
    raise_if (ltb env.config.ota_batch_max (length (i ∷ ids)))
        (http 400 (concat ("单次 OTA 批量不得超过 " ∷ show_ℕ env.config.ota_batch_max ∷ " 台" ∷ [])))
    free ← allow env ota_limiter (concat ("ota:" ∷ client_ip_from_request env request ∷ []))
    raise_if (not free) (http 429 "OTA 操作过于频繁，请稍后再试")

  unfoldable pub api_batch_ota_check : Request → List ℕ → Exec (List OtaReply)
  unfolding check_ota_batch_allowed
  api_batch_ota_check request ids = do
    check_ota_batch_allowed request ids
    rows ← transact env (select_listed ids)
    traverse (check_ota_task env) (map (λ d. d.id) rows)

  unfoldable pub api_batch_ota_upgrade : Request → List ℕ → Exec (List OtaReply)
  unfolding check_ota_batch_allowed
  api_batch_ota_upgrade request ids = do
    check_ota_batch_allowed request ids
    rows ← transact env (select_listed ids)
    results ← traverse (upgrade_ota_task env) (map (λ d. d.id) rows)
    audit_detail "ota_upgrade" (
        concat ("count=" ∷ show_ℕ (length rows) ∷ " ips=" ∷ env.str_of (arr (ips_of results)) ∷ []))
    pure results
