-- ===== src/Client/Ota.antt =====
-- The firmware tasks of backend/device_client.py, and the token that dialling needs.
use lvyou_smsweb.World.{
  Env, http, Call, Exec, pure, ◌>>=◌, ◌>>◌, transact, send, try_except, raise_if, exc_text,
}
use lvyou_smsweb.Json.{Fields, Json, obj, truthy, get_or_null}
use lvyou_smsweb.Prelude.{
  String, ℕ, Option, strip, Bool, if◌then◌else◌, ◌∷◌, ◌⊎◌, or_text, is_empty, inr, some, [], not,
  ◌||◌, inl, ◌&&◌, ◌==◌, text_comparable, number_comparable, none,
}
use lvyou_smsweb.Db.{Device}
use lvyou_smsweb.Client.Data.{
  str_or_empty, get_or_empty, raise_for_status, json_of, fetch_device_token,
}
use lvyou_smsweb.Security.Allow.{ensure_device_ip_allowed}
use lvyou_smsweb.DeviceTable.{select_device, user_of, update_device, passwd_of}
use lvyou_smsweb.Client.Probe.{istargetdevice}

-- What a firmware task reports.
pub data OtaReply : Type 0 where
  missing : ℕ → OtaReply
  problem : ℕ → String → String → OtaReply
  checked : ℕ → String → Bool → String → String → OtaReply
  upgraded : ℕ → String → Bool → String → OtaReply

abbrev pub ota_call : String → String → String → String → Call
ota_call ip a user pw = record {
  method = "GET";
  ip = ip;
  path = "/ota";
  params = ("a", a) ∷ [];
  content = "";
  form = [];
  auth = some (user, pw);
}

abbrev pub dict_or_empty : Json → Fields
dict_or_empty (obj d) = d
dict_or_empty _ = Fields.end

-- `bool(data.get("hasUpdate", False))`
abbrev pub has_update_flag : Fields → Bool
has_update_flag d = truthy (get_or_null "hasUpdate" d)

module _ (env : Env) where
  unfoldable pub ota_check : String → String → String → Exec Fields
  ota_check ip user pw = do
    ensure_device_ip_allowed env ip
    resp ← send env (ota_call ip "chkNewVer" user pw)
    raise_for_status resp
    if is_empty resp.text then pure Fields.end else do v ← json_of resp; pure (dict_or_empty v)

  -- The version that a board reports is stored, and a commit that fails is rolled back.
  unfoldable pub store_version : ℕ → String → Exec (Unit {0})
  store_version devid cur =
      if is_empty cur
      then pure tt
      else try_except
          (transact env (update_device devid (λ d. record d { firmware_version = some cur })))
          (λ _. pure tt)

  abbrev pub cur_ver : Fields → String
  cur_ver d = str_or_empty env (get_or_empty "curVer" d)

  abbrev pub new_ver : Fields → String
  new_ver d = str_or_empty env (get_or_empty "newVer" d)

  -- `check_ota_task` where the row is found; the handler covers the question to the board.
  unfoldable pub check_answer : Device → Fields ⊎ String → Exec OtaReply
  unfolding store_version
  check_answer d (inr error) = pure (problem d.id d.ip error)
  check_answer d (inl fields) = do
    store_version d.id (cur_ver fields)
    pure (
        checked d.id d.ip
          (has_update_flag fields
            || (not (is_empty (new_ver fields)) && not (new_ver fields == cur_ver fields)))
          (cur_ver fields) (new_ver fields))

  unfoldable pub check_found : Option Device → ℕ → Exec OtaReply
  unfolding check_answer ota_check
  check_found none device_id = pure (missing device_id)
  check_found (some d) device_id = do
    answer ←
        try_except (do fields ← ota_check d.ip (user_of d) (passwd_of d); pure (inl fields))
          (λ e. pure (inr (exc_text e)))
    check_answer d answer

  unfoldable pub check_ota_task : ℕ → Exec OtaReply
  unfolding check_found
  check_ota_task device_id = do
    found ← transact env (select_device device_id)
    check_found found device_id

  -- The upgrade is asked for only where the board names a version that it does not run.
  unfoldable pub upgrade_answer : Device → Fields → Exec OtaReply
  unfolding store_version
  upgrade_answer d fields = do
    store_version d.id (cur_ver fields)
    if is_empty (new_ver fields) || new_ver fields == cur_ver fields
        then pure (problem d.id d.ip "已是最新版本")
        else do
          resp ← send env (ota_call d.ip "updOtaOnline" (user_of d) (passwd_of d))
          pure (upgraded d.id d.ip (resp.status_code == 200) (new_ver fields))

  unfoldable pub upgrade_found : Option Device → ℕ → Exec OtaReply
  unfolding upgrade_answer ota_check
  upgrade_found none device_id = pure (missing device_id)
  upgrade_found (some d) device_id =
      try_except (do fields ← ota_check d.ip (user_of d) (passwd_of d); upgrade_answer d fields)
        (λ e. pure (problem d.id d.ip (exc_text e)))

  unfoldable pub upgrade_ota_task : ℕ → Exec OtaReply
  unfolding upgrade_found
  upgrade_ota_task device_id = do
    found ← transact env (select_device device_id)
    upgrade_found found device_id

  -- The token that is stored, or a new one that the board gives out.
  unfoldable pub new_device_token : Device → Exec String
  new_device_token d = do
    ensure_device_ip_allowed env d.ip
    probe ← istargetdevice env d.ip (user_of d) (passwd_of d)
    raise_if (not probe.0) (http 400 "Device authentication failed")
    token ← fetch_device_token env d.ip (user_of d) (passwd_of d)
    raise_if (is_empty token) (http 400 "Failed to fetch token")
    try_except (transact env (update_device d.id (λ row. record row { token = some token })))
        (λ _. pure tt)
    pure token

  unfoldable pub ensure_device_token : Device → Exec String
  unfolding new_device_token strip
  ensure_device_token d =
      let stored = strip (or_text d.token "") in
      if not (is_empty stored) then pure stored else new_device_token d
