-- ===== src/Settings.antt =====
-- backend/config.py: the settings that are texts or flags, as they are read from the environment
-- variables of the process, with those that security.py and main.py read themselves.
pub mod Checked
use lvyou_smsweb.World.{Config}
use lvyou_smsweb.Prelude.{none, some, String, Option, Bool, if◌then◌else◌, strip, ◌∷◌, or_else, []}
use lvyou_smsweb.Auth.Gate.{contains}

-- `os.environ.get(name, default)`
abbrev pub environ_get : (String → Option String) → String → String → String
environ_get environ name default = elim (environ name) [ none ↦ default | some value ↦ value ]

pub record Settings : Type 0 where
  pub ui_user : String
  pub ui_pass : String
  pub auth_cookie_name : String
  pub csrf_cookie_name : String
  pub cookie_secure : Bool
  pub cookie_samesite : String
  pub metrics_token : String
  pub insecure_default_password : Bool

-- `str.lower` and the variables of the process.
module _ (lower : String → String) (environ : String → Option String) where
  unfoldable pub env_truthy : String → Bool
  unfolding strip
  env_truthy name =
      contains ("1" ∷ "true" ∷ "yes" ∷ "on" ∷ []) (lower (strip (environ_get environ name "")))

  -- The rule for a value that is none of the three is the second statement on it.
  abbrev pub known_samesite : String → String
  known_samesite value = if contains ("lax" ∷ "strict" ∷ "none" ∷ []) value then value else "lax"

  unfoldable pub cookie_samesite : String
  unfolding strip
  cookie_samesite =
      known_samesite (lower (strip (or_else (environ_get environ "BMCOOKIESAMESITE" "lax") "lax")))

  unfoldable pub load_settings : Settings
  unfolding env_truthy cookie_samesite
  load_settings = record {
    ui_user = environ_get environ "BMUIUSER" "admin";
    ui_pass = environ_get environ "BMUIPASS" "admin";
    auth_cookie_name = environ_get environ "BMAUTHCOOKIE" "board_mgr_auth";
    csrf_cookie_name = environ_get environ "BMCSRFCOOKIE" "board_mgr_csrf";
    cookie_secure = env_truthy "BMCOOKIESECURE";
    cookie_samesite = cookie_samesite;
    metrics_token = strip (environ_get environ "BMMETRICS_TOKEN" "");
    insecure_default_password = env_truthy "BMINSECURE_DEFAULT_PASSWORD";
  }

-- The settings among the constants that the other parts use.
abbrev pub with_settings : Settings → Config → Config
with_settings s config = record config {
  ui_user = s.ui_user;
  ui_pass = s.ui_pass;
  auth_cookie_name = s.auth_cookie_name;
  csrf_cookie_name = s.csrf_cookie_name;
  cookie_secure = s.cookie_secure;
  cookie_samesite = s.cookie_samesite;
  metrics_token = s.metrics_token;
  insecure_default_password = s.insecure_default_password;
}
