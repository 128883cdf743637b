-- ===== src/Devices/Messages.antt =====
-- `smssenddirect` and `tel_dial` of backend/routes/devices.py: a message or a call by a board.
use Prim.Native.Nat.{max}
use lvyou_smsweb.Json.Fields.{end, field}
use lvyou_smsweb.World.{
  Env, Response, Exec, Call, try_except, ◌>>=◌, ◌>>◌, raise_if, send, http, raise, audit_detail,
  pure, reraise_http, transact, or_raise,
}
use lvyou_smsweb.Prelude.{
  String, ℕ, Bool, strip, concat, Option, some, ◌∷◌, ◌==◌, false, [], ◌||◌, not, none, zero, prefix,
  if◌then◌else◌, number_comparable, true, ◌&&◌, show_ℕ,
}
use lvyou_smsweb.Json.{
  Json, Fields, ℤ, pos, get, bool, num, get_or_null, negsuc, str, real, as_dict,
}
use lvyou_smsweb.RateLimit.{RateLimiter, remaining, allow}
use lvyou_smsweb.Client.Data.{json_of}
use lvyou_smsweb.Db.{Device}
use lvyou_smsweb.Client.Probe.{istargetdevice}
use lvyou_smsweb.DeviceTable.{user_of, passwd_of, select_device}
use lvyou_smsweb.Devices.Validate.{validate_phone, validate_sms_content}
use lvyou_smsweb.Security.Allow.{ensure_device_ip_allowed}
use lvyou_smsweb.Client.Ota.{ensure_device_token}

-- `DirectSmsReq` and `DirectDialReq`, after their validators.
pub record SmsReq : Type 0 where
  pub device_id : ℕ
  pub phone : String
  pub content : String
  pub slot : ℕ

pub record DialReq : Type 0 where
  pub device_id : ℕ
  pub slot : ℕ
  pub phone : String
  pub tts : String
  pub duration : ℤ
  pub tts_times : ℤ
  pub tts_pause : ℤ
  pub after_action : ℤ

-- `{"ok": True}`, or `{"ok": False, "error": …}`.
pub data Reply : Type 0 where
  done : Reply
  failure : String → Reply

-- `slot in (1, 2)`
abbrev pub is_slot : ℕ → Bool
is_slot slot = slot == 1 || slot == 2

-- `v is True`
abbrev pub is_true : Json → Bool
is_true (bool b) = b
is_true _ = false

module _ (env : Env) where
  -- `success` of the answer is the Boolean true.
  abbrev pub is_success : Option Fields → Bool
  is_success (some d) = is_true (get_or_null "success" d)
  is_success none = false

  abbrev pub masked : ℕ → ℕ → String → String
  masked device slot phone =
      concat (
        "device="
        ∷ show_ℕ device
        ∷ " slot="
        ∷ show_ℕ slot
        ∷ " phone="
        ∷ prefix 4 phone
        ∷ "***"
        ∷ [])

  abbrev pub sms_call : Device → ℕ → String → String → Call
  sms_call d slot phone content = record {
    method = "GET";
    ip = d.ip;
    path = "/mgr";
    params = ("a", "sendsms") ∷ ("sid", show_ℕ slot) ∷ ("phone", phone) ∷ ("content", content) ∷ [];
    content = "";
    form = [];
    auth = some (user_of d, passwd_of d);
  }

  -- What the body of an answer with the status 200 says.
  unfoldable pub read_sms_answer : SmsReq → String → Response → Exec Reply
  unfolding json_of
  read_sms_answer req phone resp =
      try_except
        (do
          v ← json_of resp
          if is_success (as_dict v)
              then (do audit_detail "sms_send" (masked req.device_id req.slot phone); pure done)
              else pure (failure "设备返回发送失败"))
        (λ _. pure (failure "设备返回异常"))

  unfoldable pub send_sms : SmsReq → String → String → Device → Exec Reply
  unfolding read_sms_answer
  send_sms req phone content d =
      try_except
        (do
          probe ← istargetdevice env d.ip (user_of d) (passwd_of d)
          raise_if (not probe.0) (http 400 "设备认证失败")
          resp ← send env (sms_call d req.slot phone content)
          if resp.status_code == 200
              then read_sms_answer req phone resp
              else pure (failure (concat ("设备通信失败 (HTTP " ∷ show_ℕ resp.status_code ∷ ")" ∷ []))))
        (reraise_http (failure "短信发送失败，请稍后重试"))

  -- A limit that is reached; the number that remains stands in the detail.
  unfoldable pub refuse_sms : RateLimiter → String → Exec (Unit {0})
  refuse_sms limiter key = do
    left ← remaining env limiter key
    raise (http 429 (concat ("发送过于频繁，请稍后再试（剩余" ∷ show_ℕ left ∷ "次/分钟）" ∷ [])))

  unfoldable pub smssenddirect : RateLimiter → SmsReq → Exec Reply
  unfolding send_sms refuse_sms
  smssenddirect sms_limiter req = do
    raise_if (not (is_slot req.slot)) (http 400 "slot must be 1 or 2")
    phone ← validate_phone req.phone
    content ← validate_sms_content env req.content
    free ← allow env sms_limiter (concat ("sms:" ∷ show_ℕ req.device_id ∷ []))
    if free then pure tt else refuse_sms sms_limiter (concat ("sms:" ∷ show_ℕ req.device_id ∷ []))
    found ← transact env (select_device req.device_id)
    d ← or_raise found (http 404 "设备不存在")
    ensure_device_ip_allowed env d.ip
    send_sms req phone content d

  -- `max(low, z)`
  abbrev pub at_least : ℕ → ℤ → ℤ
  at_least low (pos n) = pos (max low n)
  at_least low (negsuc n) = pos low

  -- `duration or 175`
  abbrev pub duration_or_default : ℤ → ℤ
  duration_or_default (pos zero) = pos 175
  duration_or_default z = z

  abbrev pub dial_call : Device → DialReq → String → String → Call
  dial_call d req phone token = record {
    method = "GET";
    ip = d.ip;
    path = "/ctrl";
    params =
        ("token", token)
        ∷ ("cmd", "teldial")
        ∷ ("p1", show_ℕ req.slot)
        ∷ ("p2", phone)
        ∷ ("p3", env.str_of (num (at_least 10 (duration_or_default req.duration))))
        ∷ ("p4", strip req.tts)
        ∷ ("p5", env.str_of (num (at_least 0 req.tts_times)))
        ∷ ("p6", env.str_of (num (at_least 0 req.tts_pause)))
        ∷ ("p7", env.str_of (num req.after_action))
        ∷ [];
    content = "";
    form = [];
    auth = none;
  }

  -- `v == 0`
  abbrev pub equals_zero : Json → Bool
  equals_zero (num (pos n)) = n == 0
  equals_zero (bool b) = not b
  equals_zero (real t zero_) = zero_
  equals_zero _ = false

  -- `payload.get("code", 0) == 0`
  abbrev pub code_is_zero : Fields → Bool
  code_is_zero d = elim (get "code" d) [ none ↦ true | some v ↦ equals_zero v ]

  -- The answer as a dict: `{"raw": text}` where it is no JSON, none where it is JSON of another kind.
  unfoldable pub dial_payload : Response → Option Fields
  dial_payload resp = elim resp.body [
    | none ↦ some (field "raw" (str resp.text) end)
    | some v ↦ as_dict v
  ]

  abbrev pub dialed : Option Fields → Bool
  dialed none = false
  dialed (some d) = code_is_zero d

  unfoldable pub dial : DialReq → String → String → Device → Exec Reply
  unfolding dial_payload strip
  dial req phone token d =
      try_except
        (do
          resp ← send env (dial_call d req phone token)
          if resp.status_code == 200 && dialed (dial_payload resp)
              then (do audit_detail "tel_dial" (masked req.device_id req.slot phone); pure done)
              else pure (failure "设备返回拨号失败"))
        (reraise_http (failure "拨号失败，请稍后重试"))

  unfoldable pub tel_dial : RateLimiter → DialReq → Exec Reply
  unfolding dial
  tel_dial dial_limiter req = do
    raise_if (not (is_slot req.slot)) (http 400 "slot must be 1 or 2")
    phone ← validate_phone req.phone
    free ← allow env dial_limiter (concat ("dial:" ∷ show_ℕ req.device_id ∷ []))
    raise_if (not free) (http 429 "拨号过于频繁，请稍后再试")
    found ← transact env (select_device req.device_id)
    d ← or_raise found (http 404 "设备不存在")
    ensure_device_ip_allowed env d.ip
    token ← ensure_device_token env d
    dial req phone token d
