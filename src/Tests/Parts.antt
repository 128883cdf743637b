-- ===== src/Tests/Parts.antt =====
-- The session store, the migrations, the metrics, the audit log and the shared objects.
use lvyou_smsweb.World.{
  err, other, Env, World, ok, Entry, transact, ask, nowts, pure, ◌>>=◌, try_except,
}
use lvyou_smsweb.Prelude.{
  String, List, strip, false, ◌==◌, ℕ, starts_with, true, [], ◌≡◌, some, none, ◌∷◌, Option, All,
  text_comparable, skip, refl, if◌then◌else◌, show_ℕ, number_comparable, not, ◌&&◌, is_empty,
}
use lvyou_smsweb.Tests.Sample.{env, world, db}
use lvyou_smsweb.Tests.Access.{request}
use lvyou_smsweb.Sessions.Store.{
  Op, run, replay, view, run_refines, insert, delete, cleanup, lookup,
}
use lvyou_smsweb.Migrations.{Schema, run_migrations, has_column, alters, is_blank}
use lvyou_smsweb.Migrations.Rerun.{rerun_completes, run_migrations-Complete}
use lvyou_smsweb.Metrics.{middlewares}
use lvyou_smsweb.Metrics.Scrape.{middlewares-IsScraper, middlewares-gauges}
use lvyou_smsweb.Audit.{
  format, AuditConfig, Disk, Logger, setup_audit_logger, dirname, stream, file_sinks, file_fault,
  os_error, other_fault,
}
use lvyou_smsweb.Audit.Lines.{read_entry, read_entry-format}
use lvyou_smsweb.Runtime.{Runtime, startup, init_runtime}
use lvyou_smsweb.Runtime.Shared.{startup-IsShared, client, pool, IsShared}
use lvyou_smsweb.Sessions.Unique.{has_unique_tokens}
use lvyou_smsweb.Auth.Http.{Request}
use lvyou_smsweb.Sessions.{insert_token, delete_token, cleanup_expired_tokens, get_token_record}
use lvyou_smsweb.Auth.Gate.{forward}
use lvyou_smsweb.Db.{Device}
use lvyou_smsweb.Scan.Hosts.{contains}
use lvyou_smsweb.Settings.{load_settings, Settings, with_settings}
use lvyou_smsweb.Settings.Checked.{startup-IsChecked}

abbrev calls : List Op
calls =
    insert "a" "admin" 100
    ∷ lookup "a"
    ∷ insert "b" "guest" 3
    ∷ cleanup
    ∷ lookup "b"
    ∷ delete "a"
    ∷ lookup "a"
    ∷ []

calls_answer :
    (run env calls world).0
    ≡ ok (some (record { username = "admin"; exp = 100 }) ∷ none ∷ none ∷ [])
unfolding run insert_token delete_token cleanup_expired_tokens get_token_record transact ask nowts
    pure ◌>>=◌ try_except
calls_answer = refl

run_refines_example : (run env calls world).0 ≡ ok (replay env calls 0 (view []))
unfolding has_unique_tokens
run_refines_example = run_refines env calls world (λ n. refl) refl

-- A database of an early version, with two devices that have no MAC address.
abbrev bare : ℕ → Device
bare n = record {
  id = n;
  dev_id = none;
  grp = none;
  ip = show_ℕ n;
  mac = some "";
  user = none;
  passwd = none;
  status = some "online";
  last_seen = none;
  sim1number = none;
  sim1operator = none;
  sim1signal = none;
  sim2number = none;
  sim2operator = none;
  sim2signal = none;
  token = none;
  firmware_version = none;
  alias = none;
  created = none;
}

abbrev early : Schema
early = record { columns = []; devices = bare 1 ∷ bare 2 ∷ [] }

-- The third statement raises.
abbrev locked : ℕ → Option String
locked n = if n == 2 then some "database is locked" else none

rerun_completes_example :
    run_migrations (λ _. none) (run_migrations locked early).1 ≡ run_migrations (λ _. none) early
rerun_completes_example = rerun_completes locked early

run_migrations-Complete_example :
    let t = (run_migrations (λ _. none) early).1 in
    All (λ a. has_column a t ≡ true) alters × All (λ d. is_blank d.mac ≡ false) t.devices
run_migrations-Complete_example = run_migrations-Complete early

abbrev metered : Env
metered = record env { config = record env.config { metrics_token = "m3tric" } }

abbrev scraping : Request
scraping = record request { method = "GET"; path = "/metrics"; authorization = "Bearer m3tric" }

abbrev filled : World
filled = record world { db = record db { devices = bare 1 ∷ bare 2 ∷ [] } }

middlewares-gauges_example :
    ((middlewares metered scraping filled).0 ≡ ok forward)
    × ((middlewares metered scraping filled).1.gauges ≡ (2, 2))
unfolding strip
middlewares-gauges_example =
    middlewares-gauges metered scraping filled refl refl refl refl refl refl refl

middlewares-IsScraper_example :
    (starts_with scraping.authorization "Bearer " ≡ true)
    × (strip (skip 7 scraping.authorization) ≡ metered.config.metrics_token)
unfolding strip
middlewares-IsScraper_example =
    middlewares-IsScraper metered scraping filled refl refl
      (middlewares-gauges metered scraping filled refl refl refl refl refl refl refl).0

abbrev entry : Entry
entry = record { action = "login"; user = "admin"; detail = "ok"; ip = ""; result = "success" }

read_entry-format_example :
    read_entry (λ line. some (format "2026-01-01T00:00:00.000Z" entry)) "{}" ≡ some entry
read_entry-format_example =
    read_entry-format (λ v. "{}") (λ line. some (format "2026-01-01T00:00:00.000Z" entry))
      "2026-01-01T00:00:00.000Z" entry refl

abbrev audit_config : AuditConfig
audit_config = record {
  log_file = "/var/log/board-manager/audit.log";
  max_bytes = 10485760;
  backup_count = 5;
  disable = false;
}

log_dir : dirname audit_config.log_file ≡ "/var/log/board-manager"
unfolding dirname
log_dir = refl

abbrev root_only : Disk
root_only = record {
  makedirs = λ p. if p == "/var/log/board-manager" then some os_error else none;
  open_file = λ p. none;
}

abbrev broken : Disk
broken = record { makedirs = λ p. none; open_file = λ p. some (other_fault (other "ValueError")) }

abbrev new_logger : Logger
new_logger = record { level = "WARNING"; propagate = true; handlers = [] }

abbrev only_stream : Logger
only_stream = record { level = "INFO"; propagate = false; handlers = stream ∷ [] }

refused_directory : setup_audit_logger root_only audit_config new_logger ≡ (ok tt, only_stream)
unfolding setup_audit_logger file_sinks file_fault dirname
refused_directory = refl

broken_file :
    setup_audit_logger broken audit_config new_logger ≡ (err (other "ValueError"), only_stream)
unfolding setup_audit_logger file_sinks file_fault dirname
broken_file = refl

abbrev cold : Runtime
cold = record {
  next = 0;
  sync_client = none;
  executor = none;
  pinger = none;
  closed = [];
  sweeping = false;
}

abbrev warm : Runtime
warm = record (init_runtime cold) { sweeping = true }

startup-warm : startup env cold ≡ ok warm
unfolding startup
startup-warm = refl

startup-IsShared_example : IsShared cold warm (client ∷ pool ∷ client ∷ [])
startup-IsShared_example = startup-IsShared env cold warm (client ∷ pool ∷ client ∷ []) startup-warm

abbrev variables : String → Option String
variables name =
    if name == "BMUIPASS"
    then some "s3cret"
    else if name == "BMCOOKIESAMESITE"
    then some " none "
    else if name == "BMCOOKIESECURE"
    then some "yes"
    else none

abbrev settings : Settings
settings = load_settings env.lower variables

settings_accepted :
    startup (record env { config = with_settings settings env.config }) cold ≡ ok warm
unfolding startup load_settings
settings_accepted = refl

startup-IsChecked_example :
    (contains ("lax" ∷ "strict" ∷ "none" ∷ []) settings.cookie_samesite ≡ true)
    × ((settings.cookie_samesite == "none" && not settings.cookie_secure) ≡ false)
    × ((is_empty settings.ui_pass && not settings.insecure_default_password) ≡ false)
startup-IsChecked_example = startup-IsChecked env variables cold warm settings_accepted
