-- ===== src/Client/Patterns.antt =====
-- The regular expressions of backend/device_client.py, as functions on texts.
use Prim.Native.Char.{code}
use Prim.Native.String.{[], ◌∷◌}
use lvyou_smsweb.Prelude.{
  ℕ, Option, String, some, none, suc, Bool, if◌then◌else◌, is_empty, ◌==◌, starts_with,
  number_comparable, ◌||◌, skip, zero,
}

-- The text up to the next quotation mark, if there is one.
abbrev pub until_quote : String → Option String
until_quote [] = none
until_quote (c ∷ s) =
    if code c == 34 then some [] else elim (until_quote s) [ none ↦ none | some t ↦ some (c ∷ t) ]

abbrev pub nonempty_text : Option String → Option String
nonempty_text none = none
nonempty_text (some s) = if is_empty s then none else some s

-- `re.search(r'realm="([^"]+)"', header)`, the first group.
unfoldable pub search_realm : String → Option String
search_realm [] = none
search_realm (c ∷ s) =
    let here =
      if starts_with (c ∷ s) "realm=\""
      then nonempty_text (until_quote (skip 7 (c ∷ s)))
      else none in
    let later = search_realm s in elim here [ some realm ↦ some realm | none ↦ later ]

-- `t in s`
unfoldable pub is_in : String → String → Bool
is_in t [] = is_empty t
is_in t (c ∷ s) = starts_with (c ∷ s) t || is_in t s

-- `re.sub(r"<[^>]+>", "", s)`: the text with each `<…>` that is not empty taken out.
abbrev pub after_tag : String → Option String
after_tag [] = none
after_tag (c ∷ s) = if code c == 62 then some s else after_tag s

abbrev pub tag_end : String → Option String
tag_end [] = none
tag_end (c ∷ s) = if code c == 62 then none else after_tag s

-- The fuel is the length of the text, and each round shortens it.
unfoldable pub strip_tags : ℕ → String → String
strip_tags zero s = s
strip_tags (suc n) [] = []
strip_tags (suc n) (c ∷ s) =
    let kept = c ∷ strip_tags n s in
    if code c == 60 then elim (tag_end s) [ none ↦ kept | some rest ↦ strip_tags n rest ] else kept
