-- ===== src/Tests/Access.antt =====
-- Sessions and the middleware.
use lvyou_smsweb.Tests.Sample.{env, world}
use lvyou_smsweb.Auth.Http.{Request, extract_request_token}
use lvyou_smsweb.World.{World, ok, nowts, transact, ◌>>=◌, try_except, audit}
use lvyou_smsweb.Sessions.{
  issue_token, get_token_record, delete_token, insert_token, cleanup_expired_tokens,
}
use lvyou_smsweb.Prelude.{strip, none, find, ◌≡◌, false, some, refl, arith, eq_iff}
use lvyou_smsweb.Auth.Gate.Access.{IsAdmitted, gate_sound}
use lvyou_smsweb.Db.{AuthToken}
use lvyou_smsweb.Auth.Login.{api_logout}
use lvyou_smsweb.Auth.Gate.{token_auth_mw, forward, answer, csrf_gate}
use lvyou_smsweb.Sessions.Lifetime.{by_token}
use lvyou_smsweb.Auth.Gate.Lifecycle.{
  gate_others, expired_is_deleted, issued_token_passes, logout_refuses,
}

abbrev pub request : Request
request = record {
  method = "GET";
  path = "/api/devices";
  authorization = "Bearer t0ken";
  csrf_header = "";
  auth_cookie = "";
  x_forwarded_for = "";
  x_real_ip = "";
  client_host = none;
  json = none;
}

abbrev logged_in : World
logged_in = (issue_token env "admin" world).1

bearer : extract_request_token request ≡ ("t0ken", false)
unfolding extract_request_token strip
bearer = refl

runs : Unit {0}
unfolding token_auth_mw extract_request_token get_token_record delete_token issue_token insert_token
    cleanup_expired_tokens csrf_gate strip nowts transact ◌>>=◌ try_except api_logout audit
runs = tt

abbrev later : World
later = record logged_in { tick = 100 }

passes : token_auth_mw env request later ≡ (ok forward, record later { tick = 102 })
unfolding runs
passes = refl

gate_sound_example : IsAdmitted env request later.db.auth_tokens 101
gate_sound_example = gate_sound env request later (record later { tick = 102 }) refl passes

issued : issue_token env "admin" world ≡ (ok "t0ken", logged_in)
unfolding runs
issued = refl

issued_token_passes_example :
    token_auth_mw env request later ≡ (ok forward, record later { tick = 102 })
issued_token_passes_example =
    issued_token_passes env "admin" "t0ken" world logged_in later request issued refl bearer refl
      refl (omega arith)

abbrev logged_out : World
logged_out = (api_logout env request later).1

logout_refuses_example : (token_auth_mw env request logged_out).0 ≡ ok (answer 401 "未登录或登录已失效")
logout_refuses_example =
    logout_refuses env request request later logged_out refl (rw bearer refl) refl refl refl

abbrev expiring : World
expiring = record logged_in { tick = 7202 }

abbrev row : AuthToken
row = record { token = "t0ken"; username = some "admin"; exp = some 7203 }

expired_is_deleted_example :
    ((token_auth_mw env request expiring).0 ≡ ok (answer 401 "登录已过期，请重新登录"))
    × (find
          (by_token (extract_request_token request).0)
          (token_auth_mw env request expiring).1.db.auth_tokens
        ≡ none)
unfolding runs
expired_is_deleted_example =
    expired_is_deleted env request expiring row refl refl refl refl refl (omega arith)

gate_others_example :
    find (by_token "other") (token_auth_mw env request later).1.db.auth_tokens
    ≡ find (by_token "other") later.db.auth_tokens
gate_others_example =
    gate_others env request later "other" (λ p. ground (arith, p, bearer, eq_iff "other" "t0ken"))
