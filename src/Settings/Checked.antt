-- ===== src/Settings/Checked.antt =====
-- What is known of the settings of a server that starts.
use lvyou_smsweb.World.{Env, Result, ok, err}
use lvyou_smsweb.Prelude.{
  String, Option, ◌≡◌, List, arith, ◌==◌, true, ◌∷◌, refl, ◌&&◌, [], not, false, is_empty,
  text_comparable, strip, Bool-cases, or_else, inl, inr,
}
use lvyou_smsweb.Auth.Gate.{contains}
use lvyou_smsweb.Settings.{
  load_settings, with_settings, known_samesite, cookie_samesite, environ_get,
}
use lvyou_smsweb.Security.Startup.{validate_startup_security}
use lvyou_smsweb.Runtime.{Runtime, startup, started}

abbrev samesites : List String
samesites = "lax" ∷ "strict" ∷ "none" ∷ []

known :
    (lower : String → String) (environ : String → Option String) (value : String)
    → contains samesites (known_samesite lower environ value) ≡ true
known lower environ value = elim (Bool-cases (contains samesites value)) [
  | inl h ↦ rw h h
  | inr h ↦ rw h refl
]

empty_is_no_default : (s : String) → is_empty s ≡ true → (s == "admin") ≡ false
empty_is_no_default String.[] h = refl
empty_is_no_default (String.◌∷◌ c s) h = ground arith

started-ok :
    (r t : Runtime) (checked : Result (List String))
    → started checked r ≡ ok t
    → (warnings : List String) × (checked ≡ ok warnings)
started-ok r t (ok warnings) h = (warnings, refl)
started-ok r t (err e) h = ground arith

checked-ok :
    (env : Env) (warnings : List String)
    → validate_startup_security env ≡ ok warnings
    → ((env.config.cookie_samesite == "none" && not env.config.cookie_secure) ≡ false)
      × ((is_empty env.config.ui_pass && not env.config.insecure_default_password) ≡ false)
unfolding validate_startup_security
checked-ok env warnings h = (ground arith, ground (arith, empty_is_no_default env.config.ui_pass))

-- If the server starts with the settings that it read, then the SameSite attribute of its cookies is
-- one that browsers know, a cookie that is sent across sites is sent over TLS alone, and the
-- password is not empty, unless the variable for insecure passwords allows that.
pub startup-IsChecked :
    (env : Env) (environ : String → Option String) (r t : Runtime)
    → let s = load_settings env.lower environ in
      startup (record env { config = with_settings s env.config }) r ≡ ok t
      → (contains ("lax" ∷ "strict" ∷ "none" ∷ []) s.cookie_samesite ≡ true)
        × ((s.cookie_samesite == "none" && not s.cookie_secure) ≡ false)
        × ((is_empty s.ui_pass && not s.insecure_default_password) ≡ false)
unfolding startup load_settings cookie_samesite
startup-IsChecked env environ r t h =
    let s = load_settings env.lower environ in
    let loaded : Env = record env { config = with_settings s env.config } in
    let (warnings, e) = started-ok r t (validate_startup_security loaded) h in
    let (a, b) = checked-ok loaded warnings e in
    (
      known env.lower environ
          (env.lower (strip (or_else (environ_get environ "BMCOOKIESAMESITE" "lax") "lax"))),
      a,
      b,
    )
