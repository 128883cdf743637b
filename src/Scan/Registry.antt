-- ===== src/Scan/Registry.antt =====
-- `ScanState` and `_active_scans` of backend/routes/scan.py.
pub mod Kept
use lvyou_smsweb.World.{ScanState, ScanItem, Exec, ◌>>=◌, gets, time}
use lvyou_smsweb.Prelude.{
  List, ℕ, String, Option, [], filter, map, ◌∷◌, Bool, if◌then◌else◌, ltb, length, none, not, some,
  ◌==◌, ◌&&◌, text_comparable, ◌+◌,
}
use lvyou_smsweb.World.{Env, put_scans}

abbrev pub new_state : ScanState
new_state = record {
  status = "pending";
  progress = "";
  results = [];
  found = 0;
  scanned = 0;
  total_ips = 0;
  cidr = "";
  finished_at = 0;
}

abbrev pub set_status : String → Option String → ScanState → ScanState
set_status status none st = record st { status = status }
set_status status (some progress) st = record st { status = status; progress = progress }

abbrev pub set_progress : String → ScanState → ScanState
set_progress progress st = record st { progress = progress }

-- The two uses of `set_counts`.
abbrev pub set_total : ℕ → ScanState → ScanState
set_total n st = record st { total_ips = n }

abbrev pub set_scanned : ℕ → ScanState → ScanState
set_scanned n st = record st { scanned = n }

abbrev pub set_results : List ScanItem → ScanState → ScanState
set_results results st = record st { results = results; found = length results }

abbrev pub Registry : Type 0
Registry = List (String × ScanState)

unfoldable pub lookup_scan : String → Registry → Option ScanState
lookup_scan id [] = none
lookup_scan id ((key, st) ∷ rest) = if key == id then some st else lookup_scan id rest

-- `_active_scans[id] = st`
unfoldable pub store_scan : String → ScanState → Registry → Registry
store_scan id st [] = (id, st) ∷ []
store_scan id st ((key, old) ∷ rest) =
    let later = store_scan id st rest in if key == id then (id, st) ∷ rest else (key, old) ∷ later

-- Changes the state of a scan in place.
unfoldable pub change_scan : String → (ScanState → ScanState) → Registry → Registry
change_scan id f [] = []
change_scan id f ((key, st) ∷ rest) = (key, if key == id then f st else st) ∷ change_scan id f rest

-- `finished_at > 0 and now - finished_at > SCAN_TTL`
abbrev pub is_expired : ℕ → ℕ → ScanState → Bool
is_expired ttl now st = ltb 0 st.finished_at && ltb (st.finished_at + ttl) now

unfoldable pub drop_expired : ℕ → ℕ → Registry → Registry
drop_expired ttl now reg = filter (λ entry. not (is_expired ttl now entry.1)) reg

-- `to_dict`
pub record StatusReply : Type 0 where
  pub status : String
  pub progress : String
  pub found : ℕ
  pub scanned : ℕ
  pub total_ips : ℕ
  pub cidr : String
  pub devices : List (String × String)

abbrev pub to_dict : ScanState → StatusReply
to_dict st = record {
  status = st.status;
  progress = st.progress;
  found = st.found;
  scanned = st.scanned;
  total_ips = st.total_ips;
  cidr = st.cidr;
  devices = map (λ r. (r.ip, r.dev_id)) st.results;
}

unfoldable pub on_scan : String → (ScanState → ScanState) → Exec (Unit {0})
unfolding put_scans change_scan
on_scan id f = put_scans (change_scan id f)

unfoldable pub get_scan : String → Exec (Option ScanState)
unfolding lookup_scan
get_scan id = gets (λ w. lookup_scan id w.scans)

module _ (env : Env) where
  unfoldable pub mark_done : String → Exec (Unit {0})
  unfolding on_scan
  mark_done id = do now ← time env; on_scan id (λ st. record st { finished_at = now })

  unfoldable pub cleanup_old_scans : Exec (Unit {0})
  unfolding drop_expired put_scans
  cleanup_old_scans = do now ← time env; put_scans (drop_expired env.config.scan_ttl now)
