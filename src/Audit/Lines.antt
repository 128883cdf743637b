-- ===== src/Audit/Lines.antt =====
-- Reading the lines of the audit log back.
use lvyou_smsweb.World.{Entry}
use lvyou_smsweb.Json.{Json, str, obj, get, end}
use lvyou_smsweb.Prelude.{String, Option, some, ◌≡◌, ap, none, ◌∙◌, refl}
use lvyou_smsweb.Audit.{format, optional}

-- A text field, and one that may be missing.
abbrev text_of : Option Json → Option String
text_of (some (str s)) = some s
text_of _ = none

abbrev text_or_empty : Option Json → Option String
text_or_empty none = some ""
text_or_empty (some v) = text_of (some v)

abbrev entry_of :
    Option String → Option String → Option String → Option String → Option String → Option Entry
entry_of (some a) (some u) (some d) (some i) (some r) =
    some (record { action = a; user = u; detail = d; ip = i; result = r })
entry_of _ _ _ _ _ = none

abbrev entry_in : Option Json → Option Entry
entry_in (some (obj d)) =
    entry_of (text_of (get "action" d)) (text_of (get "user" d)) (text_of (get "detail" d))
      (text_or_empty (get "ip" d)) (text_or_empty (get "result" d))
entry_in _ = none

-- A reader of the log: the entry that a line stands for.
unfoldable pub read_entry : (String → Option Json) → String → Option Entry
read_entry loads line = entry_in (loads line)

-- The last two fields, which may be missing.
optional-read :
    (ip result : String)
    → let d = optional "ip" ip (optional "result" result end) in
      (text_or_empty (get "ip" d) ≡ some ip) × (text_or_empty (get "result" d) ≡ some result)
optional-read String.[] String.[] = (refl, refl)
optional-read String.[] (String.◌∷◌ c s) = (refl, refl)
optional-read (String.◌∷◌ c s) String.[] = (refl, refl)
optional-read (String.◌∷◌ c s) (String.◌∷◌ d t) = (refl, refl)

-- No field of an entry is lost in the file, the empty ones that a line leaves out included: a reader
-- that parses a line of JSON gets back the action, the user, the detail, the address and the result,
-- if its parser reads the line as the value that was printed.
pub read_entry-format :
    (dumps : Json → String) (loads : String → Option Json) (ts : String) (e : Entry)
    → loads (dumps (format ts e)) ≡ some (format ts e)
    → read_entry loads (dumps (format ts e)) ≡ some e
unfolding read_entry format
read_entry-format dumps loads ts e h =
    let (ip, result) = optional-read e.ip e.result in
    ap entry_in h
    ∙ ap
        (λ i.
          entry_of (some e.action) (some e.user) (some e.detail) i
            (text_or_empty (get "result" (optional "ip" e.ip (optional "result" e.result end)))))
        ip
    ∙ ap (entry_of (some e.action) (some e.user) (some e.detail) (some e.ip)) result
