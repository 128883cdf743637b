-- ===== src/System.antt =====
-- The backend as a whole: its entry points, behind the middleware that asks for a session, and the
-- work that runs in the background. The framework, which is no part of the sources, calls them.
pub mod Gate
pub mod Lists
pub mod Confined
pub mod Guarded
use lvyou_smsweb.World.{Env, Exec, ◌>>◌, try_except, pure, ◌>>=◌}
use lvyou_smsweb.Prelude.{ℕ, String, List, ◌∷◌, Option, []}
use lvyou_smsweb.Auth.Http.{Request}
use lvyou_smsweb.RateLimit.{RateLimiter}
use lvyou_smsweb.Auth.Gate.{Verdict, answer, token_auth_mw, forward}
use lvyou_smsweb.Scan.Routes.{ScanTask, cleanup_round, scanstart, scanstatus}
use lvyou_smsweb.Auth.Login.{api_login, api_logout, api_me}
use lvyou_smsweb.Devices.Messages.{SmsReq, DialReq, smssenddirect, tel_dial}
use lvyou_smsweb.Scan.Worker.{run_scan_bg}
use lvyou_smsweb.Devices.Listing.{apidevices, apinumbers, apidevicesgroups}
use lvyou_smsweb.Devices.Forms.{ForwardReq}
use lvyou_smsweb.Devices.Rows.{
  api_device_detail, deletedevice, api_set_alias, api_set_group, api_batch_delete,
}
use lvyou_smsweb.Devices.Batch.{
  api_batch_wifi, api_batch_wifi_preview, api_batch_sim, api_set_sim, api_enhanced_batch_forward,
  api_batch_forward,
}
use lvyou_smsweb.Devices.Firmware.{api_batch_ota_check, api_batch_ota_upgrade}
use lvyou_smsweb.Boards.Routes.{
  api_batch_config_read, api_batch_config_preview, api_batch_config_write,
  api_batch_config_preset_preview, api_batch_config_preset_write,
}

pub record Limiters : Type 0 where
  pub login_ip : RateLimiter
  pub login_user : RateLimiter
  pub sms : RateLimiter
  pub dial : RateLimiter
  pub ota : RateLimiter

-- The routes, with their parameters.
pub data Handler : Type 0 where
  login logout me : Handler
  list_devices list_numbers : ℕ → ℕ → String → String → Handler
  list_groups : Handler
  show_device delete_device : ℕ → Handler
  set_alias set_group : ℕ → String → Handler
  delete_devices : List ℕ → Handler
  send_message : SmsReq → Handler
  dial_number : DialReq → Handler
  set_wifi : List ℕ → String → String → Handler
  preview_wifi_of : List ℕ → String → Handler
  set_sims_of : List ℕ → String → String → Handler
  set_sim_of : ℕ → String → String → Handler
  set_forward : ForwardReq → Handler
  set_basic_forward : List ℕ → String → String → Handler
  check_firmware upgrade_firmware : List ℕ → Handler
  read_configs : List ℕ → Handler
  preview_configs write_configs : List ℕ → String → String → String → Handler
  preview_preset_of write_preset_of : List ℕ → String → Handler
  start_scan : Option String → Option String → String → String → Handler
  scan_status : String → Handler

-- What happens to the backend: a request, the background task of a scan, a round of the sweep.
pub data Event : Type 0 where
  on_request : Request → Handler → Event
  on_scan_task : ScanTask → Event
  on_sweep : ℕ → Event

-- The answer of a handler goes to the client.
unfoldable pub answered : {A : Type 0} → Exec A → Exec (Unit {0})
answered m = do m; pure tt

module _ (env : Env) (limiters : Limiters) where
  unfoldable pub handle : Request → Handler → Exec (Unit {0})
  unfolding answered
  handle req login = answered (api_login env limiters.login_ip limiters.login_user req)
  handle req logout = answered (api_logout env req)
  handle req me = answered (api_me env req)
  handle req (list_devices page size q group) = answered (apidevices env page size q group)
  handle req (list_numbers page size q group) = answered (apinumbers env page size q group)
  handle req list_groups = answered (apidevicesgroups env)
  handle req (show_device id) = answered (api_device_detail env id)
  handle req (delete_device id) = answered (deletedevice env id)
  handle req (set_alias id text) = answered (api_set_alias env id text)
  handle req (set_group id text) = answered (api_set_group env id text)
  handle req (delete_devices ids) = answered (api_batch_delete env ids)
  handle req (send_message sms) = answered (smssenddirect env limiters.sms sms)
  handle req (dial_number call) = answered (tel_dial env limiters.dial call)
  handle req (set_wifi ids ssid pwd) = answered (api_batch_wifi env ids ssid pwd)
  handle req (preview_wifi_of ids ssid) = answered (api_batch_wifi_preview env ids ssid)
  handle req (set_sims_of ids sim1 sim2) = answered (api_batch_sim env ids sim1 sim2)
  handle req (set_sim_of id sim1 sim2) = answered (api_set_sim env id sim1 sim2)
  handle req (set_forward f) = answered (api_enhanced_batch_forward env f)
  handle req (set_basic_forward ids url notify) = answered (api_batch_forward env ids url notify)
  handle req (check_firmware ids) = answered (api_batch_ota_check env limiters.ota req ids)
  handle req (upgrade_firmware ids) = answered (api_batch_ota_upgrade env limiters.ota req ids)
  handle req (read_configs ids) = answered (api_batch_config_read env ids)
  handle req (preview_configs ids p r f) = answered (api_batch_config_preview env ids p r f)
  handle req (write_configs ids p r f) = answered (api_batch_config_write env ids p r f)
  handle req (preview_preset_of ids p) = answered (api_batch_config_preset_preview env ids p)
  handle req (write_preset_of ids p) = answered (api_batch_config_preset_write env ids p)
  handle req (start_scan cidr group user pw) = answered (scanstart env cidr group user pw)
  handle req (scan_status id) = answered (scanstatus env id)

  -- The middleware answers itself, or the request goes on to the handler.
  unfoldable pub dispatch : Request → Handler → Verdict → Exec (Unit {0})
  unfolding handle
  dispatch req h forward = handle req h
  dispatch req h (answer status detail) = pure tt

  -- What a handler raises becomes an answer too.
  unfoldable pub serve : Event → Exec (Unit {0})
  unfolding dispatch
  serve (on_request req h) =
      try_except (do verdict ← token_auth_mw env req; dispatch req h verdict) (λ _. pure tt)
  serve (on_scan_task task) =
      run_scan_bg env task.scan_id task.cidr task.group task.user task.password
  serve (on_sweep max_period) = cleanup_round env max_period

  -- A history of the backend.
  unfoldable pub serve_all : List Event → Exec (Unit {0})
  unfolding serve
  serve_all [] = pure tt
  serve_all (e ∷ es) = do serve e; serve_all es
