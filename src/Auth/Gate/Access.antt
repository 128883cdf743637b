-- ===== src/Auth/Gate/Access.antt =====
-- Which requests the middleware lets through, and what it does to the sessions.
use lvyou_smsweb.Sessions.{get_token_record, or_zero}
use lvyou_smsweb.Db.{AuthToken}
use lvyou_smsweb.Auth.Gate.{
  csrf_gate, token_auth_mw, forward, contains, csrf_required_methods, is_open,
}
use lvyou_smsweb.World.{Env, ◌>>=◌, nowts, transact, World, try_except, ok}
use lvyou_smsweb.Auth.Http.{Request, extract_request_token, csrf_for_token}
use lvyou_smsweb.Prelude.{
  String, List, ℕ, Bool, find, ◌≡◌, some, ◌<◌, ◌&&◌, true, strip, arith, eq_iff, false, suc, leb,
  ◌/◌, Option-cases, inr, inl,
}
use lvyou_smsweb.Sessions.Lifetime.{by_token}

-- Why a request that is not open passes: a session of its token that has not expired at the moment
-- `now`, and for a cookie on a method that changes state the session's CSRF value in the header.
pub record IsAdmitted (env : Env) (req : Request) (rows : List AuthToken) (now : ℕ) : Type 0 where
  pub row : AuthToken
  pub found : find (by_token (extract_request_token req).0) rows ≡ some row
  pub alive : now < or_zero row.exp
  pub csrf :
      ((extract_request_token req).1 && contains csrf_required_methods req.method) ≡ true
      → strip req.csrf_header ≡ csrf_for_token env (extract_request_token req).0

csrf_gate_sound :
    (env : Env) (req : Request) (token : String) (via_cookie : Bool) (w w' : World)
    → csrf_gate env req token via_cookie w ≡ (ok forward, w')
    → (via_cookie && contains csrf_required_methods req.method) ≡ true
    → strip req.csrf_header ≡ csrf_for_token env token
unfolding csrf_gate ◌>>=◌
csrf_gate_sound env req token via_cookie w w' h k =
    ground (arith, eq_iff (strip req.csrf_header) (csrf_for_token env token))

-- What the middleware has established where it goes on past the lookup.
past_lookup :
    (env : Env) (req : Request) (w w' : World)
    → is_open env req ≡ false
    → token_auth_mw env req w ≡ (ok forward, w')
    → (row : AuthToken) × (find (by_token (extract_request_token req).0) w.db.auth_tokens
        ≡ some row)
      × (leb (or_zero row.exp) (env.micros (suc w.tick) / 1000000) ≡ false)
      × (csrf_gate env req
            (extract_request_token req).0
            (extract_request_token req).1
            (record w { tick = suc (suc w.tick) })
          ≡ (ok forward, w'))
unfolding token_auth_mw get_token_record nowts transact ◌>>=◌ try_except
past_lookup env req w w' closed h = elim (Option-cases (env.db_fails w.tick)) [
  | inr (e, down) ↦ ground arith
  | inl up ↦ elim (Option-cases (find (by_token (extract_request_token req).0) w.db.auth_tokens)) [
    | inl missing ↦ ground arith
    | inr (row, found) ↦ (row, found, ground arith, ground arith)
  ]
]

-- A request that is not open passes the middleware only with a live session, and only with the
-- right CSRF header where a cookie carries the token on a method that changes state.
pub gate_sound :
    (env : Env) (req : Request) (w w' : World)
    → is_open env req ≡ false
    → token_auth_mw env req w ≡ (ok forward, w')
    → IsAdmitted env req w.db.auth_tokens (env.micros (suc w.tick) / 1000000)
gate_sound env req w w' closed h =
    let (row, found, alive, passed) = past_lookup env req w w' closed h in
    record {
      row = row;
      found = found;
      alive = ground arith;
      csrf = csrf_gate_sound env req _ _ _ w' passed;
    }
