-- ===== src/Audit.antt =====
-- backend/audit.py: the set-up of the audit logger, and the lines of its file.
pub mod Lines
use Prim.Native.Char.{Char, code}
use lvyou_smsweb.World.{Entry, Exc, Result, ok, err}
use lvyou_smsweb.Json.{Json, Fields, str, obj}
use lvyou_smsweb.Json.Fields.{end, field}
use lvyou_smsweb.Prelude.{
  none, some, Option, is_some, String, concat, Bool, if◌then◌else◌, false, or_else, ℕ, List, ◌∷◌,
  is_empty, ◌||◌, ◌&&◌, not, [], ◌==◌, number_comparable,
}

-- The fields that `_JsonAuditFormatter` leaves out where they are empty.
abbrev pub optional : String → String → Fields → Fields
optional key value rest = if is_empty value then rest else field key (str value) rest

-- `_JsonAuditFormatter.format`, before `json.dumps`: `ts` is the time of the record, and the level
-- of every entry is INFO.
unfoldable pub format : String → Entry → Json
format ts e = obj (
    field "ts" (str ts) (
      field "level" (str "INFO") (
        field "action" (str e.action) (
          field "user" (str e.user) (
            field "detail" (str e.detail) (optional "ip" e.ip (optional "result" e.result end)))))))

-- The text form of the stream handler.
unfoldable pub stream_line : String → Entry → String
stream_line asctime e = concat (
    "audit ts=" ∷ asctime ∷ " action=" ∷ e.action ∷ " user=" ∷ e.user ∷ " ip=" ∷ e.ip ∷ " result="
    ∷ e.result ∷ " detail=" ∷ e.detail ∷ [])

-- The constants of the module: the file, its size and number of copies, and whether it is off.
pub record AuditConfig : Type 0 where
  pub log_file : String
  pub max_bytes : ℕ
  pub backup_count : ℕ
  pub disable : Bool

pub data Sink : Type 0 where
  stream : Sink
  file : String → ℕ → ℕ → Sink

pub record Logger : Type 0 where
  pub level : String
  pub propagate : Bool
  pub handlers : List Sink

-- What the file system raises: an OSError, or an exception of another class.
pub data Fault : Type 0 where
  os_error : Fault
  other_fault : Exc → Fault

-- What the file system answers where a directory is made and where a file is opened.
pub record Disk : Type 0 where
  pub makedirs : String → Option Fault
  pub open_file : String → Option Fault

-- The part of a path up to its last slash, and a text without the slashes at its end.
abbrev pub up_to_slash : String → String
up_to_slash String.[] = ""
up_to_slash (String.◌∷◌ c s) =
    let rest = up_to_slash s in
    if is_empty rest && not (code c == b'/') then "" else String.◌∷◌ c rest

abbrev pub close_slash : Char → String → String
close_slash c String.[] = if code c == b'/' then "" else String.◌∷◌ c String.[]
close_slash c (String.◌∷◌ d s) = String.◌∷◌ c (String.◌∷◌ d s)

abbrev pub without_slashes : String → String
without_slashes String.[] = ""
without_slashes (String.◌∷◌ c s) = close_slash c (without_slashes s)

-- `os.path.dirname`
unfoldable pub dirname : String → String
dirname p = or_else (without_slashes (up_to_slash p)) (up_to_slash p)

module _ (disk : Disk) (config : AuditConfig) where
  -- The first fault on the way to the file.
  unfoldable pub file_fault : Option Fault
  unfolding dirname
  file_fault =
      let log_dir = dirname config.log_file in
      let made = if is_empty log_dir then none else disk.makedirs log_dir in
      if is_some made then made else disk.open_file config.log_file

  abbrev pub with_file : Option Fault → Result (Unit {0}) × List Sink
  with_file none = (ok tt, file config.log_file config.max_bytes config.backup_count ∷ [])
  with_file (some os_error) = (ok tt, [])
  with_file (some (other_fault e)) = (err e, [])

  -- The file handler: an OSError leaves the stream alone, another exception is raised.
  unfoldable pub file_sinks : Result (Unit {0}) × List Sink
  unfolding file_fault
  file_sinks = if config.disable then (ok tt, []) else with_file file_fault

  abbrev pub with_handlers : List Sink → Result (Unit {0}) × List Sink
  with_handlers [] = (file_sinks.0, stream ∷ file_sinks.1)
  with_handlers (h ∷ hs) = (ok tt, h ∷ hs)

  -- `_setup_audit_logger`, with the logger after it: one that has handlers keeps them. What was
  -- added before an exception stays added.
  unfoldable pub setup_audit_logger : Logger → Result (Unit {0}) × Logger
  unfolding file_sinks
  setup_audit_logger aud = (
    (with_handlers aud.handlers).0,
    record { level = "INFO"; propagate = false; handlers = (with_handlers aud.handlers).1 },
  )
