-- ===== src/Auth/Gate.antt =====
-- backend/main.py: the middleware that every request passes, and `_require_token`.
pub mod Access
pub mod Lifecycle
use lvyou_smsweb.Prelude.{
  ℕ, String, Bool, ◌&&◌, ◌||◌, none, some, List, [], ◌∷◌, any, is_empty, strip, starts_with, leb,
  ◌==◌, text_comparable, if◌then◌else◌, Option,
}
use lvyou_smsweb.World.{Env, Exec, http, pure, raise, ◌>>=◌, ◌>>◌, nowts}
use lvyou_smsweb.Sessions.{TokenRecord, get_token_record, delete_token}
use lvyou_smsweb.Auth.Http.{Request, extract_request_token, csrf_for_token, compare_digest}

-- The request goes on to its route, or is answered at once.
pub data Verdict : Type 0 where
  forward : Verdict
  answer : ℕ → String → Verdict

abbrev pub csrf_required_methods : List String
csrf_required_methods = "POST" ∷ "PUT" ∷ "PATCH" ∷ "DELETE" ∷ []

-- `x in set`
abbrev pub contains : List String → String → Bool
contains xs x = any (λ y. y == x) xs

module _ (env : Env) where
  -- `_PUBLIC_PATHS`, with /metrics if a token for it is configured.
  abbrev pub public_paths : List String
  public_paths =
      let fixed = "/" ∷ "/api/login" ∷ "/api/health" ∷ [] in
      if is_empty env.config.metrics_token then fixed else "/metrics" ∷ fixed

  abbrev pub is_open : Request → Bool
  is_open req =
      req.method == "OPTIONS" || starts_with req.path "/static/" || contains public_paths req.path

  -- The check of the header against the session, for cookies on methods that change state.
  unfoldable pub csrf_gate : Request → String → Bool → Exec Verdict
  unfolding compare_digest csrf_for_token
  csrf_gate req token via_cookie =
      if via_cookie && contains csrf_required_methods req.method
      then (do
        let provided = strip req.csrf_header
        if is_empty provided then pure (answer 403 "CSRF token 缺失或不匹配") else do
          same ← compare_digest provided (csrf_for_token env token)
          pure (if same then forward else answer 403 "CSRF token 缺失或不匹配"))
      else pure forward

  -- The middleware from the lookup of the session on.
  unfoldable pub gate_record : Request → String → Bool → Option TokenRecord → Exec Verdict
  gate_record req token via_cookie none = pure (answer 401 "未登录或登录已失效")
  gate_record req token via_cookie (some r) = do
    now ← nowts env
    if leb r.exp now
        then (do delete_token env token; pure (answer 401 "登录已过期，请重新登录"))
        else csrf_gate req token via_cookie

  unfoldable pub token_auth_mw : Request → Exec Verdict
  unfolding gate_record
  token_auth_mw req = if is_open req then pure forward else do
    let (token, via_cookie) = extract_request_token req
    if is_empty token
        then pure (answer 401 "未登录或登录已失效")
        else do found ← get_token_record env token; gate_record req token via_cookie found

  unfoldable pub require_token : Request → Exec TokenRecord
  require_token req = do
    let (token, via_cookie) = extract_request_token req
    if is_empty token then raise (http 401 "未登录或登录已失效") else do
      found ← get_token_record env token
      elim found [
        | none ↦ raise (http 401 "未登录或登录已失效")
        | some r ↦ do
          now ← nowts env
          if leb r.exp now
              then (do delete_token env token; raise (http 401 "登录已过期，请重新登录"))
              else pure r
      ]
