-- ===== src/Boards/Content.antt =====
-- What backend/routes/config.py computes of a configuration: the replacement by a regular
-- expression, the preset of message templates, and the check before and after a write.
use Prim.Native.Char.{code}
use Prim.Native.String.{[], ◌∷◌}
use lvyou_smsweb.Prelude.{
  [], ◌∷◌, is_space, String, ℕ, Option, rstrip, if◌then◌else◌, Bool, some, false, strip, ◌==◌,
  is_some, is_empty, not, starts_with, none, true, ◌&&◌, concat, ◌||◌, number_comparable,
  text_comparable,
}
use lvyou_smsweb.World.{Env, Flags, Exec, pure, ◌>>=◌, ask, of_result}
use lvyou_smsweb.Json.{Fields, Json, obj, get, field}
use lvyou_smsweb.Client.Patterns.{is_in}
use lvyou_smsweb.Boards.Templates.{clean_message_templates}

abbrev pub separator : String
separator = "~~--==~~--=="

-- `s.split(separator, 1)[0]`
unfoldable pub before_separator : String → String
before_separator [] = []
before_separator (c ∷ s) =
    let rest = before_separator s in if starts_with (c ∷ s) separator then [] else c ∷ rest

-- One letter of the flags; white space is skipped, and any other letter is refused.
abbrev pub add_flag : ℕ → Bool → Option Flags → Option Flags
add_flag n blank none = none
add_flag n blank (some f) =
    if n == 105
    then some (record f { ignorecase = true })
    else if n == 109
    then some (record f { multiline = true })
    else if n == 115
    then some (record f { dotall = true })
    else if blank
    then some f
    else none

abbrev pub no_flags : Flags
no_flags = record { ignorecase = false; multiline = false; dotall = false }

unfoldable pub parse_flags : String → Option Flags
unfolding is_space
parse_flags [] = some no_flags
parse_flags (c ∷ s) = add_flag (code c) (is_space c) (parse_flags s)

abbrev pub nonempty_dict : Option Json → Option Fields
nonempty_dict (some (obj (field k v rest))) = some (field k v rest)
nonempty_dict _ = none

-- `required_keys.issubset(main.keys())`
abbrev pub has_required_keys : Fields → Bool
has_required_keys d = is_some (get "wps" d) && is_some (get "uip" d)

abbrev pub lacks_keys : Option Fields → Bool
lacks_keys none = false
lacks_keys (some d) = not (has_required_keys d)

module _ (env : Env) where
  unfoldable pub regex_with : String → String → String → Option Flags → Exec (Option String)
  regex_with config pattern replacement none = pure none
  regex_with config pattern replacement (some flags) = do
    r ← ask (λ n. env.regex_sub n flags pattern replacement config)
    of_result r

  unfoldable pub apply_regex : String → String → String → String → Exec (Option String)
  unfolding parse_flags regex_with
  apply_regex config pattern replacement flags_str =
      regex_with config pattern replacement (parse_flags (env.lower flags_str))

  unfoldable pub config_main_json : String → Option Fields
  unfolding before_separator strip
  config_main_json content =
      let main_part = strip (before_separator content) in
      if is_empty main_part then none else nonempty_dict (env.loads main_part)

  -- The reason to refuse a configuration that is to take the place of another; none if there is
  -- none.
  unfoldable pub validate_config_content : String → String → Option String
  unfolding config_main_json is_in strip
  validate_config_content original replaced =
      let original_main = is_some (config_main_json original) in
      let replaced_main = config_main_json replaced in
      if original_main && not (is_some replaced_main)
      then some "替换后开头主配置 JSON 无效，已阻止写入"
      else if original_main && is_in separator original && not (is_in separator replaced)
      then some "替换后消息模板分隔符丢失，已阻止写入"
      else if strip replaced == "{}" || is_empty (strip replaced)
      then some "替换结果为空配置，已阻止写入"
      else if lacks_keys replaced_main
      then some "替换后主配置缺少关键字段，已阻止写入"
      else none

  unfoldable pub apply_clean_message_template : String → Option String
  unfolding config_main_json before_separator rstrip clean_message_templates
  apply_clean_message_template config =
      let main = rstrip (before_separator config) in
      if is_some (config_main_json main)
      then some (concat (main ∷ "\n\n" ∷ clean_message_templates ∷ []))
      else none
