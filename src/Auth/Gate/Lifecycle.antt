-- ===== src/Auth/Gate/Lifecycle.antt =====
-- A session from login to logout, as the middleware sees it.
use lvyou_smsweb.World.{Env, nowts, World, transact, ◌>>=◌, audit, try_except, ok}
use lvyou_smsweb.Auth.Gate.{
  token_auth_mw, csrf_gate, contains, csrf_required_methods, is_open, answer, forward, gate_record,
}
use lvyou_smsweb.Auth.Http.{Request, extract_request_token}
use lvyou_smsweb.Prelude.{
  String, ◌&&◌, ◌≡◌, false, none, is_empty, ◌≢◌, suc, find, ◌/◌, some, arith, ◌<◌, ◌+◌, ◌≤◌,
  if◌then◌else◌, refl, Option, Bool, ◌∙◌,
}
use lvyou_smsweb.Sessions.{get_token_record, delete_token, issue_token, or_zero, TokenRecord}
use lvyou_smsweb.Auth.Login.{api_logout}
use lvyou_smsweb.Db.{AuthToken, Db}
use lvyou_smsweb.Sessions.Lifetime.{by_token, find-delete, find-delete_ne, find-issue_token}
use lvyou_smsweb.World.Preserves.{Preserves, OnDb, db_rules}

-- The request needs no CSRF header: its token came in the Authorization header, or its method
-- changes no state.
abbrev pub IsExempt : Request → Type 0
IsExempt req = ((extract_request_token req).1 && contains csrf_required_methods req.method) ≡ false

-- A live session lets the request through, and the middleware changes nothing.
pub gate_complete :
    (env : Env) (req : Request) (w : World) (row : AuthToken)
    → env.db_fails w.tick ≡ none
    → is_empty (extract_request_token req).0 ≡ false
    → find (by_token (extract_request_token req).0) w.db.auth_tokens ≡ some row
    → env.micros (suc w.tick) / 1000000 < or_zero row.exp
    → IsExempt req
    → token_auth_mw env req w
      ≡ (ok forward, record w { tick = if is_open env req then w.tick else suc (suc w.tick) })
unfolding token_auth_mw get_token_record nowts transact csrf_gate ◌>>=◌ try_except
gate_complete env req w row up nonempty found alive exempt = ground arith

-- After a token is issued, a request that bears it in the Authorization header passes at every moment
-- that is less than `token_ttl_seconds` after the issue, if the table of sessions is as the issue
-- left it and the database answers the lookup of the token, whatever else has changed.
pub issued_token_passes :
    (env : Env) (username token : String) (w w1 w2 : World) (req : Request)
    → issue_token env username w ≡ (ok token, w1)
    → w2.db.auth_tokens ≡ w1.db.auth_tokens
    → extract_request_token req ≡ (token, false)
    → is_empty token ≡ false
    → env.db_fails w2.tick ≡ none
    → env.micros (suc w2.tick) / 1000000
      < env.micros (suc (suc (suc w.tick))) / 1000000 + env.config.token_ttl_seconds
    → token_auth_mw env req w2
      ≡ (ok forward, record w2 { tick = if is_open env req then w2.tick else suc (suc w2.tick) })
issued_token_passes env username token w w1 w2 req issued same bears nonempty up early =
    let row : AuthToken = record {
      token = token;
      username = some username;
      exp = some (env.micros (suc (suc (suc w.tick))) / 1000000 + env.config.token_ttl_seconds);
    } in
    gate_complete env req w2 row up (rw bears nonempty)
      (rw (bears, same) (find-issue_token env username token w w1 issued)) early (rw bears refl)

-- After a logout whose deletion the database answers, every request with the same token that is not
-- open is refused, as long as the table of sessions is as the logout left it.
pub logout_refuses :
    (env : Env) (out req : Request) (w w2 : World)
    → env.db_fails w.tick ≡ none
    → is_empty (extract_request_token out).0 ≡ false
    → w2.db.auth_tokens ≡ (api_logout env out w).1.db.auth_tokens
    → (extract_request_token req).0 ≡ (extract_request_token out).0
    → is_open env req ≡ false
    → (token_auth_mw env req w2).0 ≡ ok (answer 401 "未登录或登录已失效")
unfolding token_auth_mw get_token_record delete_token api_logout audit nowts transact ◌>>=◌
    try_except
logout_refuses env out req w w2 up nonempty same token closed =
    ground (arith, find-delete (extract_request_token out).0 w.db.auth_tokens)

-- If the database answers the lookup and the deletion, a request that is not open and bears the token
-- of an expired session is refused, and the session is deleted.
pub expired_is_deleted :
    (env : Env) (req : Request) (w : World) (row : AuthToken)
    → env.db_fails w.tick ≡ none
    → env.db_fails (suc (suc w.tick)) ≡ none
    → is_open env req ≡ false
    → is_empty (extract_request_token req).0 ≡ false
    → find (by_token (extract_request_token req).0) w.db.auth_tokens ≡ some row
    → or_zero row.exp ≤ env.micros (suc w.tick) / 1000000
    → ((token_auth_mw env req w).0 ≡ ok (answer 401 "登录已过期，请重新登录"))
      × (find (by_token (extract_request_token req).0) (token_auth_mw env req w).1.db.auth_tokens
          ≡ none)
unfolding token_auth_mw get_token_record delete_token nowts transact ◌>>=◌ try_except
expired_is_deleted env req w row up up' closed nonempty found dead =
    (ground arith, ground (arith, find-delete (extract_request_token req).0 w.db.auth_tokens))

-- The database holds `x` as the session of a token.
abbrev HasSession : String → Option AuthToken → Db → Type 0
HasSession t x db = find (by_token t) db.auth_tokens ≡ x

module _ (env : Env) (t : String) (x : Option AuthToken) where
  get_token_record-keeps :
      (token : String) → Preserves (OnDb (HasSession t x)) (get_token_record env token)
  unfolding get_token_record
  get_token_record-keeps token = search (db_rules, λ (db : Db) (h : HasSession t x db). h)

  delete_token-keeps :
      (token : String) → t ≢ token → Preserves (OnDb (HasSession t x)) (delete_token env token)
  unfolding delete_token
  delete_token-keeps token ne =
      search (
        db_rules,
        λ (db : Db) (h : HasSession t x db). find-delete_ne token t db.auth_tokens ne ∙ h,
      )

  csrf_gate-keeps :
      (req : Request) (token : String) (via_cookie : Bool)
      → Preserves (OnDb (HasSession t x)) (csrf_gate env req token via_cookie)
  unfolding csrf_gate
  csrf_gate-keeps req token via_cookie = search db_rules

  gate_record-keeps :
      (req : Request) (token : String) (via_cookie : Bool) (found : Option TokenRecord)
      → t ≢ token
      → Preserves (OnDb (HasSession t x)) (gate_record env req token via_cookie found)
  unfolding gate_record
  gate_record-keeps req token via_cookie none ne = search db_rules
  gate_record-keeps req token via_cookie (some r) ne =
      search (db_rules, delete_token-keeps, csrf_gate-keeps)

  token_auth_mw-keeps :
      (req : Request)
      → t ≢ (extract_request_token req).0
      → Preserves (OnDb (HasSession t x)) (token_auth_mw env req)
  unfolding token_auth_mw
  token_auth_mw-keeps req ne = search (db_rules, get_token_record-keeps, gate_record-keeps)

-- Whatever the request and whatever fails, the middleware leaves the session of every other token
-- as it is.
pub gate_others :
    (env : Env) (req : Request) (w : World) (t : String)
    → t ≢ (extract_request_token req).0
    → find (by_token t) (token_auth_mw env req w).1.db.auth_tokens
      ≡ find (by_token t) w.db.auth_tokens
gate_others env req w t ne =
    ((token_auth_mw-keeps env t (find (by_token t) w.db.auth_tokens) req ne).holds w
      (record { at = refl })).at
