-- ===== src/Values.antt =====
-- Python's coercions of JSON values, which raise on values of the wrong kind.
use lvyou_smsweb.World.{Env, Exec, other, pure, or_raise}
use lvyou_smsweb.Prelude.{String, Option, if◌then◌else◌, some, is_empty, strip, none}
use lvyou_smsweb.Json.{Json, str, ℤ, bool, truthy, pos, num, real}

-- `x or ""`; none where the value is true and no text.
abbrev pub text_or_empty : Json → Option String
text_or_empty (str s) = some s
text_or_empty v = if truthy v then none else some ""

abbrev pub strip_option : Option String → Option String
strip_option none = none
strip_option (some s) = some (strip s)

-- `(x or "").strip()`: what is no text has no method `strip`.
unfoldable pub stripped : Json → Exec String
unfolding or_raise
stripped v = or_raise (strip_option (text_or_empty v)) (other "object has no attribute 'strip'")

-- `int(x)` of a value that is true.
abbrev pub int_value : Env → Json → Option ℤ
int_value env (bool b) = some (pos 1)
int_value env (num z) = some z
int_value env (real t zero_) = t
int_value env (str s) = env.int_of s
int_value env _ = none

-- `int(x or 0)`
unfoldable pub int_or_zero : Env → Json → Exec ℤ
unfolding or_raise
int_or_zero env v =
    if truthy v
    then or_raise (int_value env v) (other "invalid literal for int()")
    else pure (pos 0)

-- `s or None` of a text.
abbrev pub or_none : String → Option String
or_none s = if is_empty s then none else some s
