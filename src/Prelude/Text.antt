-- ===== src/Prelude/Text.antt =====
-- Python's `str` as the native text, with the methods that the program calls.
use Prim.Native.Char.{Char, code}
use Prim.Native.Nat.{ℕ, zero, suc, ◌+◌, ◌-◌, ◌*◌}
use Prim.Native.String
use Prim.Native.String.{String, [], ◌∷◌}
use mathlib.Core.Bool.{Bool, true, false, ◌&&◌, ◌||◌}
use mathlib.Core.List.{List, [], ◌∷◌}
use mathlib.Core.Option.{Option, none, some}
use lvyou_smsweb.Prelude.Tests.{leb, ltb, ◌==◌, number_comparable, if◌then◌else◌}

-- `str.isspace` of one character: the white space that `strip` removes.
unfoldable pub is_space : Char → Bool
is_space c =
    let n = code c in
    (leb 9 n && leb n 13)
    || (leb 28 n && leb n 32)
    || n == 133
    || n == 160
    || n == 5760
    || (leb 8192 n && leb n 8202)
    || n == 8232
    || n == 8233
    || n == 8239
    || n == 8287
    || n == 12288

abbrev pub is_empty : String → Bool
is_empty [] = true
is_empty (_ ∷ _) = false

-- `len(s)`, in characters.
abbrev pub text_length : String → ℕ
text_length [] = 0
text_length (c ∷ s) = suc (text_length s)

-- `s[n:]`
abbrev pub skip : ℕ → String → String
skip zero s = s
skip (suc n) [] = []
skip (suc n) (c ∷ s) = skip n s

-- `s[:n]`
abbrev pub prefix : ℕ → String → String
prefix zero s = []
prefix (suc n) [] = []
prefix (suc n) (c ∷ s) = c ∷ prefix n s

unfoldable pub lstrip : String → String
lstrip [] = []
lstrip (c ∷ s) = let rest = lstrip s in if is_space c then rest else c ∷ s

-- Keeps a character if it is no space or something is kept behind it.
abbrev pub close_up : Char → String → String
close_up c [] = if is_space c then [] else c ∷ []
close_up c (d ∷ s) = c ∷ d ∷ s

unfoldable pub rstrip : String → String
rstrip [] = []
rstrip (c ∷ s) = close_up c (rstrip s)

unfoldable pub strip : String → String
unfolding lstrip rstrip is_space
strip s = rstrip (lstrip s)

-- `x or d` of a text, and of a value that may be None.
abbrev pub or_else : String → String → String
or_else [] d = d
or_else (c ∷ s) d = c ∷ s

abbrev pub or_text : Option String → String → String
or_text none d = d
or_text (some s) d = or_else s d

-- `s.startswith(t)`
abbrev pub starts_with : String → String → Bool
starts_with s [] = true
starts_with [] (d ∷ t) = false
starts_with (c ∷ s) (d ∷ t) = code c == code d && starts_with s t

-- `s.isascii()`
abbrev pub is_ascii : String → Bool
is_ascii [] = true
is_ascii (c ∷ s) = ltb (code c) 128 && is_ascii s

abbrev glue : Char → List String → List String
glue c [] = (c ∷ []) ∷ []
glue c (part ∷ parts) = (c ∷ part) ∷ parts

-- `s.split(sep)` at a separator of one character, which the caller gives by its code.
unfoldable pub split_at : ℕ → String → List String
split_at sep [] = [] ∷ []
split_at sep (c ∷ s) = let rest = split_at sep s in if code c == sep then [] ∷ rest else glue c rest

abbrev open_word : Char → List String → Bool → List String
open_word c parts true = (c ∷ []) ∷ parts
open_word c parts false = glue c parts

abbrev pub starts_with_space : String → Bool
starts_with_space [] = true
starts_with_space (c ∷ s) = is_space c

-- `s.split()`: the words between runs of white space.
unfoldable pub split_words : String → List String
split_words [] = []
split_words (c ∷ s) =
    let rest = split_words s in if is_space c then rest else open_word c rest (starts_with_space s)

-- The characters that end a line for `str.splitlines`.
abbrev is_line_end : Char → Bool
is_line_end c =
    let n = code c in
    (leb 10 n && leb n 13) || (leb 28 n && leb n 30) || n == 133 || n == 8232 || n == 8233

-- `s.splitlines()`. Here "\r\n" ends two lines, the second of them empty.
unfoldable pub split_lines : String → List String
split_lines [] = []
split_lines (c ∷ s) = let rest = split_lines s in if is_line_end c then [] ∷ rest else glue c rest

abbrev pub is_digit : Char → Bool
is_digit c = leb 48 (code c) && leb (code c) 57

abbrev pub all_digits : String → Bool
all_digits [] = true
all_digits (c ∷ s) = is_digit c && all_digits s

-- The value of a text of decimal digits, behind the digits read so far.
abbrev pub digits_value : ℕ → String → ℕ
digits_value n [] = n
digits_value n (c ∷ s) = digits_value (n * 10 + (code c - 48)) s

-- An f-string: the texts of its parts, one after the other.
abbrev pub concat : List String → String
concat [] = ""
concat (s ∷ ss) = String.◌++◌ s (concat ss)

-- `", ".join(texts)` with another separator.
abbrev pub join : String → List String → String
join sep [] = ""
join sep (s ∷ []) = s
join sep (s ∷ t ∷ ss) = String.◌++◌ s (String.◌++◌ sep (join sep (t ∷ ss)))

-- SQLite's LIKE does not tell the cases of ASCII letters apart.
abbrev pub folded : Char → ℕ
folded c = let n = code c in if leb 65 n && leb n 90 then n + 32 else n

-- `s LIKE 't%'`, for a `t` that stands for itself.
abbrev pub like_prefix : String → String → Bool
like_prefix s [] = true
like_prefix [] (d ∷ t) = false
like_prefix (c ∷ s) (d ∷ t) = folded c == folded d && like_prefix s t

-- `s LIKE '%t%'`, for a `t` that stands for itself.
abbrev pub like_infix : String → String → Bool
like_infix [] t = is_empty t
like_infix (c ∷ s) t = like_prefix (c ∷ s) t || like_infix s t
