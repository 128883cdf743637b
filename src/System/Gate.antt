-- ===== src/System/Gate.antt =====
-- Which addresses the middleware and the account routes contact, and whose sessions they make.
use lvyou_smsweb.World.{Env, ok}
use lvyou_smsweb.Auth.Gate.{token_auth_mw, gate_record, csrf_gate}
use lvyou_smsweb.Auth.Login.{
  api_me, me_of, api_logout, accept_login, reject_login, api_login, login_body, try_login,
  gate_login, read_dict,
}
use lvyou_smsweb.RateLimit.{record_event, reset, RateLimiter, check_only, rate_reset}
use lvyou_smsweb.Auth.Http.{check_login_credentials, compare_digest, compare_value, Request}
use lvyou_smsweb.Sessions.{
  issue_token, delete_token, get_token_record, cleanup_expired_tokens, insert_token, TokenRecord,
  replace_token,
}
use lvyou_smsweb.Prelude.{Option, String, Bool, some, none, ◌≡◌, ℕ, ◌∙◌, ap}
use lvyou_smsweb.Json.{Fields}
use lvyou_smsweb.Devices.Confined.Messages.{rate_count-Safe, rate_add-Safe}
use lvyou_smsweb.Invariant.{
  Safe, base_rules, delete_expired-Owned, replace_token-Owned, delete_where-Owned, Owned,
}
use lvyou_smsweb.World.Preserves.{Preserves-bind, Preserves-bind_ok, Preserves-if}
use lvyou_smsweb.Db.{Db}
use lvyou_smsweb.Auth.Login.Sound.{credentials-right}

module _ (env : Env) (H : Type 0) where
  check_only-Safe : (l : RateLimiter) (key : String) → Safe env H (check_only env l key)
  unfolding check_only
  check_only-Safe l key = search (base_rules, rate_count-Safe)

  record_event-Safe : (l : RateLimiter) (key : String) → Safe env H (record_event env l key)
  unfolding record_event
  record_event-Safe l key = rate_add-Safe env H l.scope key

  reset-Safe : (l : RateLimiter) (key : String) → Safe env H (reset env l key)
  unfolding reset rate_reset
  reset-Safe l key = search base_rules

  pub cleanup_tokens-Safe : Safe env H (cleanup_expired_tokens env)
  unfolding cleanup_expired_tokens
  cleanup_tokens-Safe = search (base_rules, delete_expired-Owned)

  get_token-Safe : (token : String) → Safe env H (get_token_record env token)
  unfolding get_token_record
  get_token-Safe token = search base_rules

  delete_token-Safe : (token : String) → Safe env H (delete_token env token)
  unfolding delete_token
  delete_token-Safe token = search (base_rules, delete_where-Owned)

  issue_token-Safe : (user : String) → user ≡ env.config.ui_user → Safe env H (issue_token env user)
  unfolding issue_token insert_token
  issue_token-Safe user mine = search (base_rules, cleanup_tokens-Safe, inserting) depth 10
    where
      inserting :
          (token : String) (exp : ℕ) (db : Db)
          → Owned env db
          → Owned env
              (replace_token (record { token = token; username = some user; exp = some exp }) db).0
      inserting token exp db h = replace_token-Owned env _ (ap some mine) db h

  compare_digest-Safe : (a b : String) → Safe env H (compare_digest a b)
  unfolding compare_digest
  compare_digest-Safe a b = search base_rules

  compare_value-Safe : (a : Option String) (b : String) → Safe env H (compare_value a b)
  unfolding compare_value
  compare_value-Safe none b = search base_rules
  compare_value-Safe (some a) b = compare_digest-Safe a b

  credentials-Safe :
      (user : String) (pw : Option String) → Safe env H (check_login_credentials env user pw)
  unfolding check_login_credentials
  credentials-Safe user pw = search (base_rules, compare_digest-Safe, compare_value-Safe)

  gate_record-Safe :
      (req : Request) (token : String) (via_cookie : Bool) (r : Option TokenRecord)
      → Safe env H (gate_record env req token via_cookie r)
  unfolding gate_record csrf_gate
  gate_record-Safe req token via_cookie none = search base_rules
  gate_record-Safe req token via_cookie (some r) =
      search (base_rules, delete_token-Safe, compare_digest-Safe) depth 10

  pub token_auth_mw-Safe : (req : Request) → Safe env H (token_auth_mw env req)
  unfolding token_auth_mw
  token_auth_mw-Safe req = search (base_rules, get_token-Safe, gate_record-Safe) depth 10

  module _ (by_ip by_user : RateLimiter) where
    gate_login-Safe : (user ip : String) → Safe env H (gate_login env by_ip by_user user ip)
    unfolding gate_login
    gate_login-Safe user ip = search (base_rules, check_only-Safe) depth 14

    reject_login-Safe : (user ip : String) → Safe env H (reject_login env by_ip by_user user ip)
    unfolding reject_login
    reject_login-Safe user ip = search (base_rules, record_event-Safe) depth 12

    accept_login-Safe :
        (user ip : String)
        → user ≡ env.config.ui_user
        → Safe env H (accept_login env by_ip by_user user ip)
    unfolding accept_login
    accept_login-Safe user ip mine = search (base_rules, reset-Safe, issue_token-Safe) depth 12

    try_login-Safe :
        (user : String) (pw : Option String) (ip : String)
        → Safe env H (try_login env by_ip by_user user pw ip)
    unfolding try_login
    try_login-Safe user pw ip = Preserves-bind _ _ (gate_login-Safe user ip) (λ _.
        Preserves-bind_ok _ _ (credentials-Safe user pw) (λ w good e.
          Preserves-if good _ _
            (λ yes_. accept_login-Safe user ip (credentials-right env user pw w (e ∙ ap ok yes_)).0)
            (λ no_. reject_login-Safe user ip)))

    login_body-Safe :
        (req : Request) (body : Option Fields) → Safe env H (login_body env by_ip by_user req body)
    unfolding login_body
    login_body-Safe req none = search base_rules
    login_body-Safe req (some body) = search (base_rules, try_login-Safe)

    pub api_login-Safe : (req : Request) → Safe env H (api_login env by_ip by_user req)
    unfolding api_login
    api_login-Safe req = login_body-Safe req (read_dict req.json)

  me_of-Safe : (r : Option TokenRecord) → Safe env H (me_of env r)
  unfolding me_of
  me_of-Safe none = search base_rules
  me_of-Safe (some r) = search base_rules

  pub api_me-Safe : (req : Request) → Safe env H (api_me env req)
  unfolding api_me
  api_me-Safe req = search (base_rules, get_token-Safe, me_of-Safe)

  pub api_logout-Safe : (req : Request) → Safe env H (api_logout env req)
  unfolding api_logout
  api_logout-Safe req = search (base_rules, delete_token-Safe) depth 10
