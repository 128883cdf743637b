-- ===== src/Client/Data.antt =====
-- Reading the state and the configuration of a board, writing its configuration, and its token.
use lvyou_smsweb.Json.{Json, str, Fields, truthy, as_dict, obj, get, get_or_null}
use lvyou_smsweb.Prelude.{
  Option, String, if◌then◌else◌, none, strip, ◌∷◌, Bool, some, leb, [], ◌&&◌, ltb, not, ◌==◌,
  text_length, number_comparable, false,
}
use lvyou_smsweb.World.{
  Response, Env, Exec, Call, Pairs, raise, ◌>>◌, try_except, ◌>>=◌, other, send, pure, or_raise,
}
use lvyou_smsweb.Security.Allow.{ensure_device_ip_allowed}
use lvyou_smsweb.Client.Patterns.{strip_tags}

-- `resp.json()`, which raises where the body is no JSON.
unfoldable pub json_of : Response → Exec Json
json_of resp = or_raise resp.body (other "Expecting value")

-- `httpx`: raises unless the status is one of success.
unfoldable pub raise_for_status : Response → Exec (Unit {0})
raise_for_status resp =
    if leb 200 resp.status_code && ltb resp.status_code 300
    then pure tt
    else raise (other "HTTP status error")

-- `data["data"]` where `data` is a dict with a true "success" and a dict as its "data".
abbrev pub payload_of : Json → Option Fields
payload_of (obj d) =
    if truthy (get_or_null "success" d) then as_dict (get_or_null "data" d) else none
payload_of _ = none

-- `d.get(key, "")`
abbrev pub get_or_empty : String → Fields → Json
get_or_empty key d = elim (get key d) [ none ↦ str "" | some v ↦ v ]

abbrev pub form_type : String
form_type = "application/x-www-form-urlencoded"

-- A POST to `/mgr` with the action `a`.
abbrev pub mgr_post : String → String → String → Pairs → String → String → Call
mgr_post ip a content form user pw = record {
  method = "POST";
  ip = ip;
  path = "/mgr";
  params = ("a", a) ∷ [];
  content = content;
  form = form;
  auth = some (user, pw);
}

-- The request that writes a configuration.
abbrev pub write_call : String → String → String → String → Call
write_call ip user pw content =
    mgr_post ip "updateProf" ""
      (("hiddenWifi", "1")
        ∷ ("hiddenAdminPwd", "1")
        ∷ ("hiddenUserPwd", "1")
        ∷ ("propf", content)
        ∷ [])
      user pw

abbrev pub index_keys : String
index_keys =
    "keys={\"keys\": [\"DEV_ID\", \"DEV_VER\", \"SIM1_PHNUM\", \"SIM2_PHNUM\", \"SIM1_OP\", \"SIM2_OP\", \"SIM1_STA\", \"SIM2_STA\", \"SIM1_SIGNAL\", \"SIM2_SIGNAL\", \"WIFI_NAME\", \"WIFI_DBM\"]}"

abbrev pub wifi_keys : String
wifi_keys = "keys={\"keys\": [\"WIFI_NAME\", \"WIFI_DBM\"]}"

abbrev pub propf_keys : String
propf_keys = "keys={\"keys\": [\"PROPF_1_1_1\"]}"

abbrev pub token_keys : String
token_keys = "keys=%7B%22keys%22%3A%5B%22TOKEN%22%5D%7D"

pub record WifiInfo : Type 0 where
  pub wifi_name : Json
  pub wifi_dbm : Json

abbrev pub no_wifi : WifiInfo
no_wifi = record { wifi_name = str ""; wifi_dbm = str "" }

abbrev pub wifi_of : Option Fields → WifiInfo
wifi_of none = no_wifi
wifi_of (some d) = record {
  wifi_name = get_or_empty "WIFI_NAME" d;
  wifi_dbm = get_or_empty "WIFI_DBM" d;
}

module _ (env : Env) where
  -- The dict that a board answers with, or none: for any failure of the request too.
  unfoldable pub query_board : Call → Exec (Option Fields)
  unfolding json_of
  query_board c =
      try_except
        (do
          resp ← send env c
          if not (resp.status_code == 200)
              then pure none
              else do v ← json_of resp; pure (payload_of v))
        (λ _. pure none)

  unfoldable pub getdevicedata : String → String → String → Exec (Option Fields)
  unfolding query_board
  getdevicedata ip user pw = do
    ensure_device_ip_allowed env ip
    query_board (mgr_post ip "getHtmlData_index" index_keys [] user pw)

  unfoldable pub get_wifi_info : String → String → String → Exec WifiInfo
  unfolding query_board
  get_wifi_info ip user pw = do
    ensure_device_ip_allowed env ip
    d ← query_board (mgr_post ip "getHtmlData_index" wifi_keys [] user pw)
    pure (wifi_of d)

  abbrev pub propf_text : Json → String
  propf_text (str s) = s
  propf_text v = env.dumps v

  abbrev pub propf_of : Option Fields → Option String
  propf_of none = none
  propf_of (some d) = some (propf_text (get_or_empty "PROPF" d))

  unfoldable pub read_device_config : String → String → String → Exec (Option String)
  unfolding query_board
  read_device_config ip user pw = do
    ensure_device_ip_allowed env ip
    d ← query_board (mgr_post ip "getHtmlData_propfMgr" propf_keys [] user pw)
    pure (propf_of d)

  unfoldable pub write_device_config : String → String → String → String → Exec Bool
  write_device_config ip user pw content = do
    ensure_device_ip_allowed env ip
    try_except (do resp ← send env (write_call ip user pw content); pure (resp.status_code == 200))
        (λ _. pure false)

  -- `str(v or "")`
  abbrev pub str_or_empty : Json → String
  str_or_empty (str s) = s
  str_or_empty v = if truthy v then env.str_of v else ""

  -- `(payload.get("data", {}) or {}).get("TOKEN", "") or ""`, which raises unless both are dicts.
  unfoldable pub token_value : Json → Exec String
  token_value v = do
    d ← or_raise (as_dict v) (other "object has no attribute 'get'")
    if not (truthy (get_or_null "data" d)) then pure "" else do
      inner ← or_raise (as_dict (get_or_null "data" d)) (other "object has no attribute 'get'")
      pure (str_or_empty (get_or_empty "TOKEN" inner))

  unfoldable pub fetch_device_token : String → String → String → Exec String
  unfolding json_of raise_for_status token_value strip_tags strip
  fetch_device_token ip user pw = do
    ensure_device_ip_allowed env ip
    resp ← send env (mgr_post ip "getHtmlData_passwdMgr" token_keys [] user pw)
    raise_for_status resp
    v ← json_of resp
    t ← token_value v
    pure (strip (strip_tags (text_length t) t))
