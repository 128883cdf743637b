-- ===== src/Devices/Confined/Batch.antt =====
-- Which addresses the batch operations and `api_set_sim` contact.
use lvyou_smsweb.World.{Env}
use lvyou_smsweb.Devices.Batch.{
  store_sims, enhanced_forward_task_sync, api_batch_wifi, sim_task_sync, set_sim,
  api_batch_wifi_preview, api_batch_sim, select_infos, api_set_sim, api_enhanced_batch_forward,
  wifi_task_sync, preview_wifi, check_batch_size, api_batch_forward,
}
use lvyou_smsweb.RateLimit.{RateLimiter}
use lvyou_smsweb.Prelude.{List, ℕ, String, ◌∷◌, []}
use lvyou_smsweb.Devices.Firmware.{
  check_ota_batch_allowed, api_batch_ota_upgrade, api_batch_ota_check,
}
use lvyou_smsweb.Devices.Forms.{ForwardReq, basic_value}
use lvyou_smsweb.Db.{Device}
use lvyou_smsweb.DeviceTable.{ConnInfo}
use lvyou_smsweb.Auth.Http.{Request}
use lvyou_smsweb.Security.Allow.Layers.{IsInternal}
use lvyou_smsweb.Client.Tasks.{check_ota_task-Safe, upgrade_ota_task-Safe}
use lvyou_smsweb.Devices.Confined.Messages.{reraise_http-Safe, allow-Safe}
use lvyou_smsweb.Invariant.{Safe, base_rules, send-Safe, ensure-Safe, commit-Safe}
use lvyou_smsweb.Client.Confined.{get_wifi_info-Safe, istargetdevice-Safe}

module _ (env : Env) (H : Type 0) where
  check_batch_size-Safe : (ids : List ℕ) → Safe env H (check_batch_size env ids)
  unfolding check_batch_size
  check_batch_size-Safe [] = search base_rules
  check_batch_size-Safe (i ∷ ids) = search base_rules

  pub select_infos-Safe : (ids : List ℕ) → Safe env H (select_infos env ids)
  unfolding select_infos
  select_infos-Safe ids = search base_rules

  wifi_task-Safe :
      (ssid pwd : String) (info : ConnInfo) → Safe env H (wifi_task_sync env ssid pwd info)
  unfolding wifi_task_sync
  wifi_task-Safe ssid pwd info =
      search (base_rules, ensure-Safe, send-Safe, istargetdevice-Safe) depth 12

  preview_wifi-Safe : (ssid : String) (info : ConnInfo) → Safe env H (preview_wifi env ssid info)
  unfolding preview_wifi
  preview_wifi-Safe ssid info = search (base_rules, ensure-Safe, get_wifi_info-Safe) depth 10

  sim_task-Safe :
      (sim1 sim2 : String) (info : ConnInfo) → Safe env H (sim_task_sync env sim1 sim2 info)
  unfolding sim_task_sync
  sim_task-Safe sim1 sim2 info = search (base_rules, ensure-Safe, send-Safe) depth 10

  store_sims-Safe : (ids : List ℕ) (sim1 sim2 : String) → Safe env H (store_sims env ids sim1 sim2)
  unfolding store_sims
  store_sims-Safe [] sim1 sim2 = search base_rules
  store_sims-Safe (i ∷ ids) sim1 sim2 = search (base_rules, commit-Safe)

  set_sim-Safe :
      (d : Device) (sim1 sim2 : String) → IsInternal env d.ip → Safe env H (set_sim env d sim1 sim2)
  unfolding set_sim
  set_sim-Safe d sim1 sim2 h =
      search (base_rules, send-Safe, commit-Safe, reraise_http-Safe) depth 10

  forward_task-Safe :
      (req : ForwardReq) (info : ConnInfo) → Safe env H (enhanced_forward_task_sync env req info)
  unfolding enhanced_forward_task_sync
  forward_task-Safe req info =
      search (base_rules, ensure-Safe, send-Safe, istargetdevice-Safe) depth 12

  pub api_batch_wifi_preview-Safe :
      (ids : List ℕ) (ssid : String) → Safe env H (api_batch_wifi_preview env ids ssid)
  unfolding api_batch_wifi_preview
  api_batch_wifi_preview-Safe ids ssid =
      search (base_rules, check_batch_size-Safe, select_infos-Safe, preview_wifi-Safe)

  pub api_batch_wifi-Safe :
      (ids : List ℕ) (ssid pwd : String) → Safe env H (api_batch_wifi env ids ssid pwd)
  unfolding api_batch_wifi
  api_batch_wifi-Safe ids ssid pwd =
      search (base_rules, check_batch_size-Safe, select_infos-Safe, wifi_task-Safe)

  pub api_batch_sim-Safe :
      (ids : List ℕ) (sim1 sim2 : String) → Safe env H (api_batch_sim env ids sim1 sim2)
  unfolding api_batch_sim
  api_batch_sim-Safe ids sim1 sim2 =
      search (base_rules, check_batch_size-Safe, select_infos-Safe, sim_task-Safe, store_sims-Safe)
        depth 10

  pub api_set_sim-Safe :
      (devid : ℕ) (sim1 sim2 : String) → Safe env H (api_set_sim env devid sim1 sim2)
  unfolding api_set_sim
  api_set_sim-Safe devid sim1 sim2 = search (base_rules, ensure-Safe, set_sim-Safe) depth 10

  pub forward-Safe : (req : ForwardReq) → Safe env H (api_enhanced_batch_forward env req)
  unfolding api_enhanced_batch_forward
  forward-Safe req =
      search (base_rules, check_batch_size-Safe, select_infos-Safe, forward_task-Safe)

  pub basic_forward-Safe :
      (ids : List ℕ) (url notify : String) → Safe env H (api_batch_forward env ids url notify)
  unfolding api_batch_forward
  basic_forward-Safe ids url notify =
      forward-Safe
        (record { device_ids = ids; forward_method = "99"; value = basic_value url notify })

  module _ (limiter : RateLimiter) where
    ota_allowed-Safe :
        (request : Request) (ids : List ℕ)
        → Safe env H (check_ota_batch_allowed env limiter request ids)
    unfolding check_ota_batch_allowed
    ota_allowed-Safe request [] = search base_rules
    ota_allowed-Safe request (i ∷ ids) = search (base_rules, allow-Safe)

    pub api_batch_ota_check-Safe :
        (request : Request) (ids : List ℕ)
        → Safe env H (api_batch_ota_check env limiter request ids)
    unfolding api_batch_ota_check
    api_batch_ota_check-Safe request ids =
        search (base_rules, ota_allowed-Safe, check_ota_task-Safe) depth 10

    pub api_batch_ota_upgrade-Safe :
        (request : Request) (ids : List ℕ)
        → Safe env H (api_batch_ota_upgrade env limiter request ids)
    unfolding api_batch_ota_upgrade
    api_batch_ota_upgrade-Safe request ids =
        search (base_rules, ota_allowed-Safe, upgrade_ota_task-Safe) depth 10
