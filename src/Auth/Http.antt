-- ===== src/Auth/Http.antt =====
-- What the web framework hands to the code of a request, and the helpers that read it:
-- backend/main.py (tokens, cookies, credentials) and backend/security.py (the client's address).
pub mod Proxy
use lvyou_smsweb.Prelude.{
  ℕ, ◌-◌, String, Bool, true, false, not, ◌&&◌, Option, none, some, List, [], ◌∷◌, is_empty, strip,
  skip, starts_with, split_at, is_ascii, length, get_elem?, filter, map, ltb, ◌==◌,
  number_comparable, text_comparable, if◌then◌else◌,
}
use lvyou_smsweb.Json.{Json}
use lvyou_smsweb.World.{Env, Exec, other, pure, raise, ◌>>=◌}

-- A header or cookie that is absent reads as the empty text, as `get(name, "")` does. `json` is
-- none where `await request.json()` raises; `client_host` is none where there is no client.
pub record Request : Type 0 where
  pub method : String
  pub path : String
  pub authorization : String
  pub csrf_header : String
  pub auth_cookie : String
  pub x_forwarded_for : String
  pub x_real_ip : String
  pub client_host : Option String
  pub json : Option Json

unfoldable pub extract_bearer_token : Request → String
extract_bearer_token req =
    let auth = strip req.authorization in
    if not (starts_with auth "Bearer ") then "" else strip (skip 7 auth)

-- The token, and whether it came by the cookie.
unfoldable pub extract_request_token : Request → String × Bool
unfolding extract_bearer_token
extract_request_token req =
    let bearer = extract_bearer_token req in
    if not (is_empty bearer) then (bearer, false) else (strip req.auth_cookie, true)

-- A `Set-Cookie` of the response.
pub record SetCookie : Type 0 where
  pub name : String
  pub value : String
  pub max_age : ℕ
  pub httponly : Bool
  pub secure : Bool
  pub samesite : String

-- `parts[max(0, len(parts) - hops)]`; the list is not empty.
abbrev pub pick : ℕ → List String → Option String
pick hops parts = get_elem? parts (length parts - hops)

abbrev pub host_or_unknown : Option String → String
host_or_unknown none = "unknown"
host_or_unknown (some host) = host

-- The non-empty addresses of an X-Forwarded-For header.
abbrev pub forwarded : String → List String
forwarded xff = filter (λ p. not (is_empty p)) (map strip (split_at b',' xff))

-- The last two sources of the client's address.
abbrev pub real_ip : Request → String
real_ip req =
    if not (is_empty req.x_real_ip) then strip req.x_real_ip else host_or_unknown req.client_host

-- `hmac.compare_digest` of two texts, which raises unless both are ASCII.
unfoldable pub compare_digest : String → String → Exec Bool
compare_digest a b =
    if is_ascii a && is_ascii b
    then pure (a == b)
    else raise (other "comparing strings with non-ASCII characters is not supported")

-- The same of a JSON value that may be no text, none here, which raises too.
unfoldable pub compare_value : Option String → String → Exec Bool
unfolding compare_digest
compare_value none b = raise (other "unsupported operand types(s) or combination of types")
compare_value (some a) b = compare_digest a b

module _ (env : Env) where
  unfoldable pub csrf_for_token : String → String
  csrf_for_token token = if is_empty token then "" else env.csrf env.config.ui_pass token

  unfoldable pub set_auth_cookies : String → List SetCookie
  unfolding csrf_for_token
  set_auth_cookies token =
      record {
        name = env.config.auth_cookie_name;
        value = token;
        max_age = env.config.token_ttl_seconds;
        httponly = true;
        secure = env.config.cookie_secure;
        samesite = env.config.cookie_samesite;
      }
      ∷ record {
        name = env.config.csrf_cookie_name;
        value = csrf_for_token token;
        max_age = env.config.token_ttl_seconds;
        httponly = false;
        secure = env.config.cookie_secure;
        samesite = env.config.cookie_samesite;
      }
      ∷ []

  -- `a and b`: the password is compared only if the name is right.
  unfoldable pub check_login_credentials : String → Option String → Exec Bool
  unfolding compare_value
  check_login_credentials username password = do
    same_user ← compare_digest username env.config.ui_user
    if same_user then compare_value password env.config.ui_pass else pure false

  unfoldable pub client_ip_from_request : Request → String
  client_ip_from_request req =
      if ltb 0 env.config.trusted_proxy_hops
      then elim (pick env.config.trusted_proxy_hops (forwarded req.x_forwarded_for)) [
        | some ip ↦ ip
        | none ↦ real_ip req
      ]
      else host_or_unknown req.client_host
