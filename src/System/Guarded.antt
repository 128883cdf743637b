-- ===== src/System/Guarded.antt =====
-- What a request that has no session does.
use lvyou_smsweb.World.{Env, Call, World, pure, try_except, ◌>>=◌, Result, caught, after, ok, err}
use lvyou_smsweb.Prelude.{
  List, ◌≡◌, String, Bool, refl, Option, false, some, ◌⊎◌, none, suc, ◌/◌, inr, inl, ap, ◌∙◌,
}
use lvyou_smsweb.System.{Limiters, Handler, serve, dispatch, on_request}
use lvyou_smsweb.Auth.Http.{Request, compare_digest}
use lvyou_smsweb.Db.{Device, Db}
use lvyou_smsweb.Auth.Gate.{
  token_auth_mw, gate_record, csrf_gate, Verdict, is_open, forward, answer,
}
use lvyou_smsweb.Sessions.{get_token_record, delete_token, TokenRecord}
use lvyou_smsweb.World.Preserves.{Preserves, OnDb, OnSent, db_rules, sent_rules}
use lvyou_smsweb.Auth.Gate.Access.{IsAdmitted, gate_sound}

module _ (env : Env) (Q : List Call → Type 0) where
  compare-Sent : (a b : String) → Preserves (OnSent Q) (compare_digest a b)
  unfolding compare_digest
  compare-Sent a b = search sent_rules

  gate-Sent :
      (req : Request) (token : String) (via_cookie : Bool) (r : Option TokenRecord)
      → Preserves (OnSent Q) (gate_record env req token via_cookie r)
  unfolding gate_record csrf_gate delete_token
  gate-Sent req token via_cookie none = search sent_rules
  gate-Sent req token via_cookie (some r) = search (sent_rules, compare-Sent) depth 12

  mw-Sent : (req : Request) → Preserves (OnSent Q) (token_auth_mw env req)
  unfolding token_auth_mw get_token_record
  mw-Sent req = search (sent_rules, gate-Sent) depth 12

module _ (env : Env) (rows : List Device) where
  abbrev Rows : Db → Type 0
  Rows db = db.devices ≡ rows

  compare-Rows : (a b : String) → Preserves (OnDb Rows) (compare_digest a b)
  unfolding compare_digest
  compare-Rows a b = search db_rules

  gate-Rows :
      (req : Request) (token : String) (via_cookie : Bool) (r : Option TokenRecord)
      → Preserves (OnDb Rows) (gate_record env req token via_cookie r)
  unfolding gate_record csrf_gate delete_token
  gate-Rows req token via_cookie none = search db_rules
  gate-Rows req token via_cookie (some r) = search (db_rules, compare-Rows) depth 12

  mw-Rows : (req : Request) → Preserves (OnDb Rows) (token_auth_mw env req)
  unfolding token_auth_mw get_token_record
  mw-Rows req = search (db_rules, gate-Rows) depth 12

module _ (env : Env) (limiters : Limiters) (req : Request) (h : Handler) where
  by_verdict :
      (r : Result Verdict) (v : World)
      → ((caught
            (λ _. pure tt)
            (after (dispatch env limiters req h) r v).0
            (after (dispatch env limiters req h) r v).1).1
          ≡ v)
        ⊎ (r ≡ ok forward)
  unfolding dispatch pure
  by_verdict (ok forward) v = inr refl
  by_verdict (ok (answer status detail)) v = inl refl
  by_verdict (err e) v = inl refl

  middleware_alone :
      (w : World)
      → (((token_auth_mw env req w).1.sent ≡ w.sent)
          × ((token_auth_mw env req w).1.db.devices ≡ w.db.devices))
  middleware_alone w = (
    ((mw-Sent env (λ sent. sent ≡ w.sent) req).holds w (record { at = refl })).at,
    ((mw-Rows env w.db.devices req).holds w (record { at = refl })).at,
  )

  -- A request to any route that is not open sends nothing to a board and changes no row of the
  -- devices, unless it has a session that has not expired and, where a cookie carries the token and
  -- the method changes state, the session's CSRF value in the header.
  pub serve-IsAdmitted :
      (w : World)
      → is_open env req ≡ false
      → (((serve env limiters (on_request req h) w).1.sent ≡ w.sent)
          × ((serve env limiters (on_request req h) w).1.db.devices ≡ w.db.devices))
        ⊎ IsAdmitted env req w.db.auth_tokens (env.micros (suc w.tick) / 1000000)
  unfolding serve try_except ◌>>=◌
  serve-IsAdmitted w closed =
      elim (by_verdict (token_auth_mw env req w).0 (token_auth_mw env req w).1) [
        | inl same ↦ inl (
          ap (λ v. v.sent) same ∙ (middleware_alone w).0,
          ap (λ v. v.db.devices) same ∙ (middleware_alone w).1,
        )
        | inr e ↦ inr (
            gate_sound env req w (token_auth_mw env req w).1 closed
              (ap (λ r. (r, (token_auth_mw env req w).1)) e))
      ]
