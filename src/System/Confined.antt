-- ===== src/System/Confined.antt =====
-- Which addresses the whole backend contacts, and whose sessions it keeps.
use lvyou_smsweb.World.{Env, Exec, World}
use lvyou_smsweb.System.{
  Limiters, answered, serve, dispatch, serve_all, handle, Event, Handler, on_request, on_scan_task,
  list_devices, on_sweep, list_numbers, show_device, delete_device, set_alias, set_group,
  delete_devices, send_message, dial_number, set_wifi, preview_wifi_of, set_sims_of, set_sim_of,
  set_forward, set_basic_forward, check_firmware, upgrade_firmware, read_configs, preview_configs,
  write_configs, preview_preset_of, write_preset_of, start_scan, scan_status, login, logout, me,
  list_groups,
}
use lvyou_smsweb.Prelude.{List, ◌∷◌, []}
use lvyou_smsweb.Auth.Http.{Request}
use lvyou_smsweb.System.Gate.{api_login-Safe, api_logout-Safe, token_auth_mw-Safe, api_me-Safe}
use lvyou_smsweb.Auth.Gate.{Verdict, answer, forward}
use lvyou_smsweb.Scan.Confined.{run_scan_bg-Safe, scanstart-Safe, scanstatus-Safe}
use lvyou_smsweb.System.Lists.{
  apidevices-Safe, cleanup_round-Safe, apinumbers-Safe, groups-Safe, deletedevice-Safe,
  api_set_alias-Safe, api_set_group-Safe, api_batch_delete-Safe,
}
use lvyou_smsweb.Devices.Confined.Rows.{api_device_detail-Safe}
use lvyou_smsweb.Devices.Confined.Messages.{smssenddirect-Safe, tel_dial-Safe}
use lvyou_smsweb.Devices.Confined.Batch.{
  api_batch_wifi-Safe, api_batch_wifi_preview-Safe, api_batch_sim-Safe, api_set_sim-Safe,
  forward-Safe, basic_forward-Safe, api_batch_ota_check-Safe, api_batch_ota_upgrade-Safe,
}
use lvyou_smsweb.Boards.Confined.{
  read-Safe, preview-Safe, write-Safe, preset_preview-Safe, preset_write-Safe,
}
use lvyou_smsweb.Invariant.{Safe, Confined, Owned, base_rules}
use lvyou_smsweb.World.Preserves.{Preserves-bind}

module _ (env : Env) (H : Type 0) (limiters : Limiters) where
  answered-Safe : {A : Type 0} (m : Exec A) → Safe env H m → Safe env H (answered m)
  unfolding answered
  answered-Safe m h = search (base_rules, h)

  handle-Safe : (req : Request) (h : Handler) → Safe env H (handle env limiters req h)
  unfolding handle
  handle-Safe req login = answered-Safe _ (api_login-Safe env H _ _ req)
  handle-Safe req logout = answered-Safe _ (api_logout-Safe env H req)
  handle-Safe req me = answered-Safe _ (api_me-Safe env H req)
  handle-Safe req (list_devices page size q group) =
      answered-Safe _ (apidevices-Safe env H page size q group)
  handle-Safe req (list_numbers page size q group) =
      answered-Safe _ (apinumbers-Safe env H page size q group)
  handle-Safe req list_groups = answered-Safe _ (groups-Safe env H)
  handle-Safe req (show_device id) = answered-Safe _ (api_device_detail-Safe env H id)
  handle-Safe req (delete_device id) = answered-Safe _ (deletedevice-Safe env H id)
  handle-Safe req (set_alias id text) = answered-Safe _ (api_set_alias-Safe env H id text)
  handle-Safe req (set_group id text) = answered-Safe _ (api_set_group-Safe env H id text)
  handle-Safe req (delete_devices ids) = answered-Safe _ (api_batch_delete-Safe env H ids)
  handle-Safe req (send_message sms) = answered-Safe _ (smssenddirect-Safe env H _ sms)
  handle-Safe req (dial_number call) = answered-Safe _ (tel_dial-Safe env H _ call)
  handle-Safe req (set_wifi ids ssid pwd) = answered-Safe _ (api_batch_wifi-Safe env H ids ssid pwd)
  handle-Safe req (preview_wifi_of ids ssid) =
      answered-Safe _ (api_batch_wifi_preview-Safe env H ids ssid)
  handle-Safe req (set_sims_of ids sim1 sim2) =
      answered-Safe _ (api_batch_sim-Safe env H ids sim1 sim2)
  handle-Safe req (set_sim_of id sim1 sim2) = answered-Safe _ (api_set_sim-Safe env H id sim1 sim2)
  handle-Safe req (set_forward f) = answered-Safe _ (forward-Safe env H f)
  handle-Safe req (set_basic_forward ids url notify) =
      answered-Safe _ (basic_forward-Safe env H ids url notify)
  handle-Safe req (check_firmware ids) = answered-Safe _ (api_batch_ota_check-Safe env H _ req ids)
  handle-Safe req (upgrade_firmware ids) =
      answered-Safe _ (api_batch_ota_upgrade-Safe env H _ req ids)
  handle-Safe req (read_configs ids) = answered-Safe _ (read-Safe env H ids)
  handle-Safe req (preview_configs ids p r f) = answered-Safe _ (preview-Safe env H ids p r f)
  handle-Safe req (write_configs ids p r f) = answered-Safe _ (write-Safe env H ids p r f)
  handle-Safe req (preview_preset_of ids p) = answered-Safe _ (preset_preview-Safe env H ids p)
  handle-Safe req (write_preset_of ids p) = answered-Safe _ (preset_write-Safe env H ids p)
  handle-Safe req (start_scan cidr group user pw) =
      answered-Safe _ (scanstart-Safe env H cidr group user pw)
  handle-Safe req (scan_status id) = answered-Safe _ (scanstatus-Safe env H id)

  dispatch-Safe :
      (req : Request) (h : Handler) (v : Verdict) → Safe env H (dispatch env limiters req h v)
  unfolding dispatch
  dispatch-Safe req h forward = handle-Safe req h
  dispatch-Safe req h (answer status detail) = search base_rules

  serve-Safe : (e : Event) → Safe env H (serve env limiters e)
  unfolding serve
  serve-Safe (on_request req h) = search (base_rules, token_auth_mw-Safe, dispatch-Safe)
  serve-Safe (on_scan_task task) = run_scan_bg-Safe env H _ _ _ _ _
  serve-Safe (on_sweep max_period) = cleanup_round-Safe env H max_period

  serve_all-Safe : (es : List Event) → Safe env H (serve_all env limiters es)
  unfolding serve_all
  serve_all-Safe [] = search base_rules
  serve_all-Safe (e ∷ es) = Preserves-bind _ _ (serve-Safe e) (λ _. serve_all-Safe es)

-- Whatever happens to the backend, from a moment at which every request so far went to an internal
-- address (nothing sent yet, for instance), every request that it has sent went to an address that
-- the first layer of the allow-list admits: no handler, no input, no row of the table and no
-- answer of a board makes it send one to any other.
pub serve_all-Confined :
    (env : Env) (limiters : Limiters) (es : List Event) (w : World)
    → Confined env w.sent
    → Confined env (serve_all env limiters es w).1.sent
serve_all-Confined env limiters es w h =
    ((serve_all-Safe env ⊥ limiters es).holds w
        (record { confined = λ _. h; owned = λ x. absurd x })).confined
      (λ x. x)

-- Whatever happens to the backend, every session is one of the configured user, and no two share a
-- token: if that holds of the table of sessions, it holds after every sequence of events (an answered
-- request, a scan, a sweep, a refused or failing statement in the middle of one). No request opens
-- a session for another name.
pub serve_all-Owned :
    (env : Env) (limiters : Limiters) (es : List Event) (w : World)
    → Owned env w.db
    → Owned env (serve_all env limiters es w).1.db
serve_all-Owned env limiters es w h =
    ((serve_all-Safe env (Unit {0}) limiters es).holds w
        (record { confined = λ n. absurd (n tt); owned = λ _. h })).owned
      tt
