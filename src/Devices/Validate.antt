-- ===== src/Devices/Validate.antt =====
-- `_validate_phone` and `_validate_sms_content` of backend/main.py, which the request models of
-- backend/routes/devices.py repeat as validators.
pub mod Phone
use Prim.Native.Char.{code}
use Prim.Native.String.{[], ◌∷◌}
use lvyou_smsweb.Prelude.{
  strip, String, if◌then◌else◌, Bool, ℕ, is_empty, leb, is_digit, ◌&&◌, ◌||◌, suc, ◌==◌, not,
  text_comparable, ltb, text_length, number_comparable,
}
use lvyou_smsweb.World.{Env, Exec, raise, http, pure}

-- How many digits a text begins with, and what stands behind them.
abbrev pub digit_run : String → ℕ × String
digit_run [] = (0, [])
digit_run (c ∷ s) = let (n, rest) = digit_run s in if is_digit c then (suc n, rest) else (0, c ∷ s)

-- `$` matches at the end, and before a line feed that ends the text.
abbrev pub at_end : String → Bool
at_end s = is_empty s || s == "\n"

abbrev pub drop_plus : String → String
drop_plus [] = []
drop_plus (c ∷ s) = if code c == 43 then s else c ∷ s

-- `PHONE_RE.match(s)` of `^\+?[0-9]{5,15}$`: a longer run of digits leaves `$` no place to match.
unfoldable pub phone_re : String → Bool
phone_re s = let (n, rest) = digit_run (drop_plus s) in leb 5 n && leb n 15 && at_end rest

unfoldable pub validate_phone : String → Exec String
unfolding phone_re strip
validate_phone phone =
    let p = strip phone in
    if is_empty p || not (phone_re p) then raise (http 400 "手机号格式不正确") else pure p

unfoldable pub validate_sms_content : Env → String → Exec String
unfolding strip
validate_sms_content env content =
    let c = strip content in
    if is_empty c
    then raise (http 400 "短信内容不能为空")
    else if ltb env.config.sms_max_len (text_length c)
    then raise (http 400 "短信内容超出长度限制")
    else pure c
