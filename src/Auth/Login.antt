-- ===== src/Auth/Login.antt =====
-- backend/routes/auth.py: login, the current user, logout.
pub mod Sound
pub mod Covers
pub mod History
pub mod Guesses
pub mod Outcome
use lvyou_smsweb.Prelude.{
  ℕ, ◌-◌, String, Bool, false, not, Option, none, some, List, [], ◌∷◌, is_empty, or_else,
  text_comparable, if◌then◌else◌,
}
use lvyou_smsweb.Json.{Json, Fields, get_or_null, as_dict}
use lvyou_smsweb.World.{Env, Exec, http, pure, raise, ◌>>=◌, ◌>>◌, nowts, audit, bm_login_failure}
use lvyou_smsweb.RateLimit.{RateLimiter, check_only, record_event, reset}
use lvyou_smsweb.Sessions.{get_token_record, delete_token, issue_token, TokenRecord}
use lvyou_smsweb.Auth.Http.{
  Request, SetCookie, extract_request_token, set_auth_cookies, check_login_credentials,
  client_ip_from_request,
}
use lvyou_smsweb.Values.{stripped, text_or_empty}

pub record LoginReply : Type 0 where
  pub username : String
  pub expires_in : ℕ
  pub cookies : List SetCookie

pub record Me : Type 0 where
  pub username : String
  pub expires_in : ℕ

abbrev pub dash : String → String
dash username = or_else username "-"

abbrev pub read_dict : Option Json → Option Fields
read_dict none = none
read_dict (some v) = as_dict v

module _ (env : Env) (login_limiter_ip login_limiter_user : RateLimiter) where
  abbrev pub user_key : String → String
  user_key username = if not (is_empty username) then env.lower username else ""

  -- `user_key and not _login_limiter_user.check_only(user_key)`
  abbrev pub user_blocked : String → Exec Bool
  user_blocked key =
      if is_empty key
      then pure false
      else do free ← check_only env login_limiter_user key; pure (not free)

  -- The two limits, which are asked before the password is looked at.
  unfoldable pub gate_login : String → String → Exec (Unit {0})
  gate_login username client_ip = do
    ip_free ← check_only env login_limiter_ip client_ip
    if ip_free then pure tt else do
      audit (record {
        action = "login_blocked";
        user = dash username;
        detail = "";
        ip = client_ip;
        result = "ratelimit_ip";
      })
      bm_login_failure "rate_limited_ip"
      raise (http 429 "登录尝试过于频繁，请稍后再试")
    blocked ← user_blocked (user_key username)
    if blocked
        then (do
          audit (record {
            action = "login_blocked";
            user = username;
            detail = "";
            ip = client_ip;
            result = "ratelimit_user";
          })
          bm_login_failure "rate_limited_user"
          raise (http 429 "该账号登录尝试过于频繁，请稍后再试"))
        else pure tt

  -- A failed attempt is counted for the address and, if there is one, for the name.
  unfoldable pub reject_login : String → String → Exec LoginReply
  reject_login username client_ip = do
    record_event env login_limiter_ip client_ip
    if is_empty (user_key username)
        then pure tt
        else record_event env login_limiter_user (user_key username)
    audit (record {
      action = "login_fail";
      user = dash username;
      detail = "";
      ip = client_ip;
      result = "bad_credentials";
    })
    bm_login_failure "bad_credentials"
    raise (http 401 "用户名或密码错误")

  unfoldable pub accept_login : String → String → Exec LoginReply
  accept_login username client_ip = do
    if is_empty (user_key username)
        then pure tt
        else reset env login_limiter_user (user_key username)
    token ← issue_token env username
    audit (record { action = "login"; user = username; detail = ""; ip = client_ip; result = "ok" })
    pure (record {
      username = username;
      expires_in = env.config.token_ttl_seconds;
      cookies = set_auth_cookies env token;
    })

  -- `api_login` from the parsed name and password on.
  unfoldable pub try_login : String → Option String → String → Exec LoginReply
  try_login username password client_ip = do
    gate_login username client_ip
    good ← check_login_credentials env username password
    if good then accept_login username client_ip else reject_login username client_ip

  unfoldable pub login_body : Request → Option Fields → Exec LoginReply
  unfolding try_login stripped client_ip_from_request
  login_body req none = raise (http 400 "请求体格式错误")
  login_body req (some body) = do
    username ← stripped (get_or_null "username" body)
    try_login username (text_or_empty (get_or_null "password" body))
        (client_ip_from_request env req)

  unfoldable pub api_login : Request → Exec LoginReply
  unfolding login_body
  api_login req = login_body req (read_dict req.json)

module _ (env : Env) where
  unfoldable pub me_of : Option TokenRecord → Exec Me
  me_of none = raise (http 401 "未登录")
  me_of (some r) = do
    now ← nowts env
    pure (record { username = r.username; expires_in = r.exp - now })

  unfoldable pub api_me : Request → Exec Me
  unfolding me_of
  api_me req = do found ← get_token_record env (extract_request_token req).0; me_of found

  -- The response clears both cookies.
  unfoldable pub api_logout : Request → Exec (List String)
  api_logout req = do
    let token = (extract_request_token req).0
    if is_empty token then pure tt else do
      delete_token env token
      audit (record {
        action = "logout";
        user = "-";
        detail = "";
        ip = client_ip_from_request env req;
        result = "ok";
      })
    pure (env.config.auth_cookie_name ∷ env.config.csrf_cookie_name ∷ [])
