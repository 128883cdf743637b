-- ===== src/Migrations.antt =====
-- `run_migrations` of backend/db.py: the columns that later versions of the program added, and the
-- MAC addresses that earlier versions stored as empty texts.
pub mod Rerun
use lvyou_smsweb.Db.{Device}
use lvyou_smsweb.Prelude.{
  true, false, inl, inr, String, List, Option, ℕ, Bool, ◌++◌, ◌==◌, some, any, if◌then◌else◌, ◌∷◌,
  false, map, ◌&&◌, [], is_empty, none, text_comparable, suc,
}

-- A column that a table is to have: its table, its name and its type.
pub record Alter : Type 0 where
  pub table : String
  pub col : String
  pub coltype : String

abbrev pub alters : List Alter
alters =
    record { table = "devices"; col = "token"; coltype = "TEXT DEFAULT ''" }
    ∷ record { table = "devices"; col = "sim1signal"; coltype = "INTEGER DEFAULT 0" }
    ∷ record { table = "devices"; col = "sim2signal"; coltype = "INTEGER DEFAULT 0" }
    ∷ record { table = "devices"; col = "firmware_version"; coltype = "VARCHAR(64) DEFAULT ''" }
    ∷ []

-- The columns of the tables, each with its table, and the rows of devices.
pub record Schema : Type 0 where
  pub columns : List Alter
  pub devices : List Device

-- `col in cols`, where `cols` are the names in `PRAGMA table_info(table)`.
abbrev pub is_column : Alter → Alter → Bool
is_column a c = c.table == a.table && c.col == a.col

abbrev pub has_column : Alter → Schema → Bool
has_column a s = any (is_column a) s.columns

abbrev pub add_column : Alter → Schema → Schema
add_column a s = record s { columns = s.columns ++ (a ∷ []) }

-- `UPDATE devices SET mac = NULL WHERE mac = ''`
abbrev pub is_blank : Option String → Bool
is_blank none = false
is_blank (some mac) = is_empty mac

abbrev pub clear_mac : Device → Device
clear_mac d = if is_blank d.mac then record d { mac = none } else d

abbrev pub clear_macs : Schema → Schema
clear_macs s = record s { devices = map clear_mac s.devices }

-- The schema with a column, which is added if it is missing.
unfoldable pub ensured : Alter → Schema → Schema
ensured a s = if has_column a s then s else add_column a s

-- A statement that may raise, on a schema that it then leaves, before what follows it.
abbrev pub failed_or : Option String → Schema → Option String × Schema → Option String × Schema
failed_or none s next = next
failed_or (some e) s next = (some e, s)

-- The statements are numbered; `fails` answers the text of the exception that one raises. A
-- statement that alters a table takes effect at once, the update with the commit that follows it.
module _ (fails : ℕ → Option String) where
  -- A column that is there takes one statement, a missing one two.
  abbrev pub alter_failure : Bool → ℕ → Option String
  alter_failure true n = none
  alter_failure false n = fails n

  abbrev pub next_statement : Bool → ℕ → ℕ
  next_statement true n = n
  next_statement false n = suc n

  unfoldable pub add_columns : List Alter → ℕ → Schema → Option String × Schema
  unfolding ensured
  add_columns [] n s = failed_or (fails n) s (none, clear_macs s)
  add_columns (a ∷ rest) n s =
      let found = has_column a s in
      let next = add_columns rest (next_statement found (suc n)) (ensured a s) in
      failed_or (fails n) s (failed_or (alter_failure found (suc n)) s next)

  unfoldable pub run_migrations : Schema → Option String × Schema
  unfolding add_columns
  run_migrations s = add_columns alters 0 s
