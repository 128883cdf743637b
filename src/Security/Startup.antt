-- ===== src/Security/Startup.antt =====
-- `validate_startup_security` of backend/security.py, and the refusal of a wildcard origin by
-- `_configure_cors` of backend/main.py.
use lvyou_smsweb.World.{Env, Result, ok, err, other}
use lvyou_smsweb.Prelude.{
  String, List, is_empty, if◌then◌else◌, ◌||◌, ◌==◌, any, text_comparable, ◌&&◌, not, ◌∷◌, [],
}
use lvyou_smsweb.Auth.Http.{forwarded}

-- Whether the server starts, and the warnings that it logs.
unfoldable pub validate_startup_security : Env → Result (List String)
validate_startup_security env =
    let weak = is_empty env.config.ui_pass || env.config.ui_pass == "admin" in
    let refused : Result (List String) = err (other "BMUIPASS must be set before starting.") in
    let cookies : List String → Result (List String) = λ warnings.
      if env.config.cookie_samesite == "none" && not env.config.cookie_secure
      then err (other "BMCOOKIESAMESITE=none requires BMCOOKIESECURE=1")
      else ok warnings in
    if weak && not env.config.insecure_default_password
    then (if env.config.ui_pass == "admin"
        then cookies ("BMUIPASS 使用默认值 'admin'，建议设置强密码" ∷ [])
        else refused)
    else cookies []

-- The origins of BMALLOWORIGINS, or a refusal.
unfoldable pub configure_cors : String → Result (List String)
configure_cors raw =
    let origins = forwarded raw in
    if any (λ o. o == "*") origins
    then err (other "BMALLOWORIGINS='*' is incompatible with allow_credentials=True.")
    else ok origins
