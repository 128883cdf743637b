-- ===== src/Devices/Confined/Messages.antt =====
-- Which addresses `smssenddirect` and `tel_dial` contact.
use lvyou_smsweb.World.{Env, Exc, reraise_http, Response, http, other}
use lvyou_smsweb.RateLimit.{remaining, rate_add, allow, rate_count, RateLimiter}
use lvyou_smsweb.Devices.Messages.{
  tel_dial, send_sms, dial, refuse_sms, read_sms_answer, smssenddirect, SmsReq, DialReq,
}
use lvyou_smsweb.Devices.Validate.{validate_phone, validate_sms_content}
use lvyou_smsweb.Client.Data.{json_of}
use lvyou_smsweb.Prelude.{String, ℕ}
use lvyou_smsweb.Db.{Device}
use lvyou_smsweb.Security.Allow.Layers.{IsInternal}
use lvyou_smsweb.Client.Tasks.{ensure_device_token-Safe}
use lvyou_smsweb.Invariant.{Safe, base_rules, ensure-Safe, send-Safe}
use lvyou_smsweb.Client.Confined.{istargetdevice-Safe}

module _ (env : Env) (H : Type 0) where
  validate_phone-Safe : (phone : String) → Safe env H (validate_phone phone)
  unfolding validate_phone
  validate_phone-Safe phone = search base_rules

  validate_sms_content-Safe : (content : String) → Safe env H (validate_sms_content env content)
  unfolding validate_sms_content
  validate_sms_content-Safe content = search base_rules

  pub rate_count-Safe :
      (scope key : String) (period : ℕ) → Safe env H (rate_count env scope key period)
  unfolding rate_count
  rate_count-Safe scope key period = search base_rules

  pub rate_add-Safe : (scope key : String) → Safe env H (rate_add env scope key)
  unfolding rate_add
  rate_add-Safe scope key = search base_rules

  pub allow-Safe : (l : RateLimiter) (key : String) → Safe env H (allow env l key)
  unfolding allow
  allow-Safe l key = search (base_rules, rate_count-Safe, rate_add-Safe)

  remaining-Safe : (l : RateLimiter) (key : String) → Safe env H (remaining env l key)
  unfolding remaining
  remaining-Safe l key = search (base_rules, rate_count-Safe)

  refuse_sms-Safe : (l : RateLimiter) (key : String) → Safe env H (refuse_sms env l key)
  unfolding refuse_sms
  refuse_sms-Safe l key = search (base_rules, remaining-Safe)

  pub reraise_http-Safe : {A : Type 0} (a : A) (e : Exc) → Safe env H (reraise_http a e)
  reraise_http-Safe a (http status detail) = search base_rules
  reraise_http-Safe a (other text) = search base_rules

  read_sms_answer-Safe :
      (req : SmsReq) (phone : String) (resp : Response)
      → Safe env H (read_sms_answer env req phone resp)
  unfolding read_sms_answer json_of
  read_sms_answer-Safe req phone resp = search base_rules depth 10

  send_sms-Safe :
      (req : SmsReq) (phone content : String) (d : Device)
      → IsInternal env d.ip
      → Safe env H (send_sms env req phone content d)
  unfolding send_sms
  send_sms-Safe req phone content d h =
      search (base_rules, send-Safe, istargetdevice-Safe, read_sms_answer-Safe, reraise_http-Safe)
        depth 12

  pub smssenddirect-Safe : (l : RateLimiter) (req : SmsReq) → Safe env H (smssenddirect env l req)
  unfolding smssenddirect
  smssenddirect-Safe l req =
      search
        (
          base_rules, validate_phone-Safe, validate_sms_content-Safe, allow-Safe, refuse_sms-Safe,
          ensure-Safe, send_sms-Safe,
        )
        depth 16

  dial-Safe :
      (req : DialReq) (phone token : String) (d : Device)
      → IsInternal env d.ip
      → Safe env H (dial env req phone token d)
  unfolding dial
  dial-Safe req phone token d h = search (base_rules, send-Safe, reraise_http-Safe) depth 10

  pub tel_dial-Safe : (l : RateLimiter) (req : DialReq) → Safe env H (tel_dial env l req)
  unfolding tel_dial
  tel_dial-Safe l req =
      search
        (
          base_rules, validate_phone-Safe, allow-Safe, ensure-Safe, ensure_device_token-Safe,
          dial-Safe,
        )
        depth 16
