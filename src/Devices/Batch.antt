-- ===== src/Devices/Batch.antt =====
-- The batch operations of backend/routes/devices.py, and the SIM numbers of one board.
pub mod Refused
use lvyou_smsweb.Prelude.{
  List, String, ℕ, ◌∷◌, if◌then◌else◌, Bool, or_else, some, ◌==◌, [], text_comparable, ltb,
  number_comparable, length, concat, map, not, show_ℕ,
}
use lvyou_smsweb.DeviceTable.{
  ConnInfo, commit, device_conn_info, is_listed, select_listed, user_of, select_device, passwd_of,
  map_row,
}
use lvyou_smsweb.World.{
  Env, Pairs, Call, Exc, Exec, ◌>>◌, pure, try_except, ◌>>=◌, raise, http, send, traverse, other,
  transact, or_raise, reraise_http,
}
use lvyou_smsweb.Db.{Device}
use lvyou_smsweb.Json.{Json, str}
use lvyou_smsweb.Security.Allow.{ensure_device_ip_allowed}
use lvyou_smsweb.Client.Data.{str_or_empty, get_wifi_info}
use lvyou_smsweb.Client.Probe.{istargetdevice}
use lvyou_smsweb.Devices.Forms.{basic_value, ForwardReq, forward_form}

-- What a task returns for one board, with the status where the task returns it.
pub data TaskReply : Type 0 where
  applied : ℕ → String → Bool → TaskReply
  applied_status : ℕ → String → Bool → ℕ → TaskReply
  refused : ℕ → String → String → TaskReply

pub record WifiPreview : Type 0 where
  pub info : ConnInfo
  pub current_wifi : String
  pub new_wifi : String

-- What `api_set_sim` returns: success, the status of a refusal, or an error.
pub data SimReply : Type 0 where
  sim_done : SimReply
  sim_status : ℕ → SimReply
  sim_failure : String → SimReply

-- The handlers of a task: the detail of an HTTPException, a fixed text for any other.
abbrev pub task_error : String → Exc → String
task_error fixed (http status detail) = detail
task_error fixed (other text) = fixed

abbrev pub ids_of : List TaskReply → List ℕ
ids_of [] = []
ids_of (applied id ip good ∷ rs) = if good then id ∷ ids_of rs else ids_of rs
ids_of (applied_status id ip good status ∷ rs) = if good then id ∷ ids_of rs else ids_of rs
ids_of (refused id ip e ∷ rs) = ids_of rs

abbrev pub with_sims : String → String → Device → Device
with_sims sim1 sim2 d = record d { sim1number = some sim1; sim2number = some sim2 }

abbrev pub set_sims : List ℕ → String → String → List Device → List Device
set_sims ids sim1 sim2 [] = []
set_sims ids sim1 sim2 (d ∷ ds) =
    (if is_listed ids d then with_sims sim1 sim2 d else d) ∷ set_sims ids sim1 sim2 ds

module _ (env : Env) where
  unfoldable pub check_batch_size : List ℕ → Exec (Unit {0})
  check_batch_size [] = raise (http 400 "device_ids required")
  check_batch_size (i ∷ ids) =
      if ltb env.config.batch_max (length (i ∷ ids))
      then raise (http 400 (concat ("单次批量操作不得超过 " ∷ show_ℕ env.config.batch_max ∷ " 台" ∷ [])))
      else pure tt

  -- The boards of the request that have a row.
  unfoldable pub select_infos : List ℕ → Exec (List ConnInfo)
  unfolding device_conn_info
  select_infos ids = do rows ← transact env (select_listed ids); pure (map device_conn_info rows)

  abbrev pub wifi_call : ConnInfo → String → String → Call
  wifi_call info ssid pwd = record {
    method = "GET";
    ip = info.ip;
    path = "/ap";
    params = ("a", "apadd") ∷ ("ssid", ssid) ∷ ("pwd", pwd) ∷ [];
    content = "";
    form = [];
    auth = some (info.user, info.pw);
  }

  unfoldable pub wifi_task_sync : String → String → ConnInfo → Exec TaskReply
  wifi_task_sync ssid pwd info =
      try_except
        (do
          ensure_device_ip_allowed env info.ip
          probe ← istargetdevice env info.ip info.user info.pw
          if not probe.0 then pure (refused info.id info.ip "设备认证失败") else do
            resp ← send env (wifi_call info ssid pwd)
            pure (applied info.id info.ip (resp.status_code == 200)))
        (λ e. pure (refused info.id info.ip (task_error "WiFi配置失败" e)))

  -- `current or "(未知)"`
  abbrev pub shown_wifi : Json → String
  shown_wifi v = or_else (str_or_empty env v) "(未知)"

  unfoldable pub preview_wifi : String → ConnInfo → Exec WifiPreview
  preview_wifi ssid info = do
    current ←
        try_except
          (do
            ensure_device_ip_allowed env info.ip
            wifi ← get_wifi_info env info.ip info.user info.pw
            pure wifi.wifi_name)
          (λ _. pure (str ""))
    pure (record { info = info; current_wifi = shown_wifi current; new_wifi = ssid })

  unfoldable pub api_batch_wifi_preview : List ℕ → String → Exec (List WifiPreview)
  unfolding check_batch_size select_infos preview_wifi
  api_batch_wifi_preview ids ssid = do
    check_batch_size ids
    infos ← select_infos ids
    traverse (preview_wifi ssid) infos

  unfoldable pub api_batch_wifi : List ℕ → String → String → Exec (List TaskReply)
  unfolding check_batch_size select_infos wifi_task_sync
  api_batch_wifi ids ssid pwd = do
    check_batch_size ids
    infos ← select_infos ids
    traverse (wifi_task_sync ssid pwd) infos

  abbrev pub sim_call : String → String → String → String → String → Call
  sim_call ip user pw sim1 sim2 = record {
    method = "POST";
    ip = ip;
    path = "/mgr";
    params = ("a", "updatePhnum") ∷ [];
    content = "";
    form = ("sim1Phnum", sim1) ∷ ("sim2Phnum", sim2) ∷ [];
    auth = some (user, pw);
  }

  unfoldable pub sim_task_sync : String → String → ConnInfo → Exec TaskReply
  sim_task_sync sim1 sim2 info =
      try_except
        (do
          ensure_device_ip_allowed env info.ip
          resp ← send env (sim_call info.ip info.user info.pw sim1 sim2)
          pure (applied info.id info.ip (resp.status_code == 200)))
        (λ e. pure (refused info.id info.ip (task_error "SIM配置失败" e)))

  -- The numbers are stored for the boards that took them.
  unfoldable pub store_sims : List ℕ → String → String → Exec (Unit {0})
  unfolding commit
  store_sims [] sim1 sim2 = pure tt
  store_sims (i ∷ ids) sim1 sim2 = do
    transact env (select_listed (i ∷ ids))
    commit env (set_sims (i ∷ ids) sim1 sim2)

  unfoldable pub api_batch_sim : List ℕ → String → String → Exec (List TaskReply)
  unfolding check_batch_size select_infos sim_task_sync store_sims
  api_batch_sim ids sim1 sim2 = do
    check_batch_size ids
    infos ← select_infos ids
    results ← traverse (sim_task_sync sim1 sim2) infos
    store_sims (ids_of results) sim1 sim2
    pure results

  unfoldable pub set_sim : Device → String → String → Exec SimReply
  unfolding commit
  set_sim d sim1 sim2 =
      try_except
        (do
          resp ← send env (sim_call d.ip (user_of d) (passwd_of d) sim1 sim2)
          if resp.status_code == 200
              then (do commit env (map_row d.id (with_sims sim1 sim2)); pure sim_done)
              else pure (sim_status resp.status_code))
        (reraise_http (sim_failure "SIM配置失败，请稍后重试"))

  unfoldable pub api_set_sim : ℕ → String → String → Exec SimReply
  unfolding set_sim
  api_set_sim devid sim1 sim2 = do
    found ← transact env (select_device devid)
    d ← or_raise found (http 404 "Device not found")
    ensure_device_ip_allowed env d.ip
    set_sim d sim1 sim2

  abbrev pub forward_call : ConnInfo → Pairs → Call
  forward_call info form = record {
    method = "POST";
    ip = info.ip;
    path = "/saveForwardConfig";
    params = [];
    content = "";
    form = form;
    auth = some (info.user, info.pw);
  }

  unfoldable pub enhanced_forward_task_sync : ForwardReq → ConnInfo → Exec TaskReply
  unfolding forward_form
  enhanced_forward_task_sync req info =
      try_except
        (do
          ensure_device_ip_allowed env info.ip
          probe ← istargetdevice env info.ip info.user info.pw
          if not probe.0 then pure (refused info.id info.ip "设备认证失败") else do
            resp ← send env (forward_call info (forward_form req))
            pure (applied_status info.id info.ip (resp.status_code == 200) resp.status_code))
        (λ e. pure (refused info.id info.ip (task_error "转发配置失败" e)))

  unfoldable pub api_enhanced_batch_forward : ForwardReq → Exec (List TaskReply)
  unfolding check_batch_size select_infos enhanced_forward_task_sync
  api_enhanced_batch_forward req = do
    check_batch_size req.device_ids
    infos ← select_infos req.device_ids
    traverse (enhanced_forward_task_sync req) infos

  unfoldable pub api_batch_forward : List ℕ → String → String → Exec (List TaskReply)
  unfolding api_enhanced_batch_forward
  api_batch_forward ids forward_url notify_url = api_enhanced_batch_forward (record {
    device_ids = ids;
    forward_method = "99";
    value = basic_value forward_url notify_url;
  })
