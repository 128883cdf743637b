-- ===== src/Devices/Upsert.antt =====
-- `upsertdevice` of backend/main.py: a board that a scan found becomes a row of the table.
pub mod Kept
pub mod Ids
use Prim.Native.Nat.{max}
use lvyou_smsweb.Prelude.{
  Option, ℕ, String, List, if◌then◌else◌, some, ◌++◌, Bool, ◌∷◌, strip, ◌==◌, none, find, is_some,
  false, not, text_comparable, number_comparable, or_text, is_empty, true, [], suc, concat, show_ℕ,
}
use lvyou_smsweb.DeviceTable.{DeviceDict, commit, flush, device_to_dict, map_row, same_value}
use lvyou_smsweb.Db.{Device}
use lvyou_smsweb.World.{
  Env, Exec, or_raise, ◌>>=◌, transact, nowts, try_except, pure, other, ask, ◌>>◌, exc_text,
}
use lvyou_smsweb.Json.{Fields, ℤ, get_or_null}
use lvyou_smsweb.Values.{stripped, int_or_zero, or_none}
use lvyou_smsweb.Client.Data.{getdevicedata}

-- What the board reports, with the types that the columns have.
pub record Report : Type 0 where
  pub dev_id : Option String
  pub sim1number : String
  pub sim2number : String
  pub sim1operator : String
  pub sim2operator : String
  pub sim1signal : ℤ
  pub sim2signal : ℤ
  pub firmware : String

pub data Saved : Type 0 where
  saved : DeviceDict → Saved
  save_error : String → String → Saved

-- `grp is not None and str(grp).strip()`
abbrev pub has_group : Option String → Bool
has_group none = false
has_group (some g) = not (is_empty (strip g))

abbrev pub fields_or_empty : Option Fields → Fields
fields_or_empty none = Fields.end
fields_or_empty (some d) = d

abbrev pub by_ip : String → Device → Bool
by_ip ip d = d.ip == ip

-- The first row that holds the value in a column that may be NULL.
abbrev pub find_value : (Device → Option String) → Option String → List Device → Option Device
find_value column none rows = none
find_value column (some v) rows = find (λ d. same_value (column d) (some v)) rows

abbrev pub new_id : List Device → ℕ
new_id [] = 1
new_id (d ∷ ds) = max (suc d.id) (new_id ds)

-- The text before the number of a row, and before the time, in the name of a stale address.
abbrev pub stale_name : (ℕ → String) → ℕ → ℕ → String
stale_name show id now = concat ("__stale_" ∷ show id ∷ "_" ∷ show now ∷ [])

module _ (env : Env) where
  unfoldable pub read_report : Fields → Exec Report
  unfolding stripped int_or_zero
  read_report d = do
    dev_id ← stripped (get_or_null "DEV_ID" d)
    sim1number ← stripped (get_or_null "SIM1_PHNUM" d)
    sim2number ← stripped (get_or_null "SIM2_PHNUM" d)
    sim1op ← stripped (get_or_null "SIM1_OP" d)
    sim1operator ← if is_empty sim1op then stripped (get_or_null "SIM1_STA" d) else pure sim1op
    sim2op ← stripped (get_or_null "SIM2_OP" d)
    sim2operator ← if is_empty sim2op then stripped (get_or_null "SIM2_STA" d) else pure sim2op
    sim1signal ← int_or_zero env (get_or_null "SIM1_SIGNAL" d)
    sim2signal ← int_or_zero env (get_or_null "SIM2_SIGNAL" d)
    firmware ← stripped (get_or_null "DEV_VER" d)
    pure (record {
      dev_id = or_none dev_id;
      sim1number = sim1number;
      sim2number = sim2number;
      sim1operator = sim1operator;
      sim2operator = sim2operator;
      sim1signal = sim1signal;
      sim2signal = sim2signal;
      firmware = firmware;
    })

  abbrev pub query_row : (List Device → Option Device) → Exec (Option Device)
  query_row f = transact env (λ db. (db, f db.devices))

  -- The row of the board: by its identifier, then by its MAC, then by its address.
  unfoldable pub find_row : Option String → Option String → String → Exec (Option Device)
  find_row dev_id mac ip = do
    a ← query_row (find_value (λ d. d.dev_id) dev_id)
    b ← if is_some a then pure a else query_row (find_value (λ d. d.mac) mac)
    if is_some b then pure b else query_row (find (by_ip ip))

  -- The row whose address must be freed first: another one that holds the address.
  unfoldable pub find_holder : Device → String → Exec (Option Device)
  find_holder d ip = if d.ip == ip then pure none else do
    holder ← query_row (find (by_ip ip))
    pure (elim holder [ none ↦ none | some h ↦ if h.id == d.id then none else some h ])

  abbrev pub updated :
      Report → Option String → String → String → String → Option String → ℕ → Device → Device
  updated r mac ip user pw grp now d = record d {
    dev_id = if is_some r.dev_id then r.dev_id else d.dev_id;
    grp = if has_group grp then grp else d.grp;
    ip = ip;
    mac = if is_some mac then mac else or_none (or_text d.mac "");
    user = some user;
    passwd = some pw;
    status = some "online";
    last_seen = some now;
    sim1number = some r.sim1number;
    sim1operator = some r.sim1operator;
    sim1signal = some r.sim1signal;
    sim2number = some r.sim2number;
    sim2operator = some r.sim2operator;
    sim2signal = some r.sim2signal;
    firmware_version = if is_empty r.firmware then d.firmware_version else some r.firmware;
  }

  abbrev pub created_row :
      Report → Option String → String → String → String → Option String → ℕ → String → ℕ → Device
  created_row r mac ip user pw grp now created id = record {
    id = id;
    dev_id = r.dev_id;
    grp = if has_group grp then grp else some "auto";
    ip = ip;
    mac = mac;
    user = some user;
    passwd = some pw;
    status = some "online";
    last_seen = some now;
    sim1number = some r.sim1number;
    sim1operator = some r.sim1operator;
    sim1signal = some r.sim1signal;
    sim2number = some r.sim2number;
    sim2operator = some r.sim2operator;
    sim2signal = some r.sim2signal;
    token = some "";
    firmware_version = some r.firmware;
    alias = some "";
    created = some created;
  }

  abbrev pub release : Option (Device × String) → List Device → List Device
  release none rows = rows
  release (some (h, name)) rows = map_row h.id (λ d. record d { ip = name }) rows

  -- What follows the commit: the row is read again.
  unfoldable pub refreshed : String → Option String → (List Device → Option Device) → Exec Saved
  unfolding device_to_dict or_raise
  refreshed ip (some text) row = pure (save_error ip text)
  refreshed ip none row = do
    found ← query_row row
    d ← or_raise found (other "Could not refresh instance")
    pure (saved (device_to_dict d))

  -- The commit; a failure of it is reported, not raised.
  unfoldable pub finish :
      String → (List Device → List Device) → (List Device → Option Device) → Exec Saved
  unfolding commit refreshed
  finish ip change row = do
    problem ←
        try_except (do commit env change; pure none)
          (λ e. pure (some (concat ("数据库写入失败: " ∷ exc_text e ∷ []))))
    refreshed ip problem row

  module _ (r : Report) (mac : Option String) (ip user pw : String) (grp : Option String) where
    -- Updates the row `d` once the address is free.
    unfoldable pub write_row : Device → Option (Device × String) → Exec Saved
    unfolding finish
    write_row d freed = do
      now ← nowts env
      finish ip (λ rows. map_row d.id (updated r mac ip user pw grp now) (release freed rows))
          (find (λ e. e.id == d.id))

    -- `holder` is the other row that has the address.
    unfoldable pub update_after : Device → Option Device → Exec Saved
    unfolding write_row flush refreshed
    update_after d none = write_row d none
    update_after d (some h) = do
      now ← nowts env
      let freed = some (h, stale_name show_ℕ h.id now)
      flushed ← try_except (do flush env (release freed); pure true) (λ _. pure false)
      if flushed then write_row d freed else refreshed ip none (find (λ e. e.id == d.id))

    unfoldable pub update_found : Device → Exec Saved
    unfolding update_after find_holder
    update_found d = do holder ← find_holder d ip; update_after d holder

    unfoldable pub insert_new : Exec Saved
    unfolding finish
    insert_new = do
      now ← nowts env
      created ← ask env.now_text
      finish ip (λ rows. rows ++ created_row r mac ip user pw grp now created (new_id rows) ∷ [])
          (find (by_ip ip))

    unfoldable pub store_found : Option Device → Exec Saved
    unfolding update_found insert_new
    store_found (some d) = update_found d
    store_found none = insert_new

    unfoldable pub store_report : Exec Saved
    unfolding store_found find_row
    store_report = do found ← find_row r.dev_id mac ip; store_found found

  unfoldable pub upsertdevice : String → String → String → String → Option String → Exec Saved
  unfolding store_report read_report strip
  upsertdevice ip mac user pw grp = do
    answer ← getdevicedata env ip user pw
    r ← read_report (fields_or_empty answer)
    store_report r (or_none (env.upper (strip mac))) ip user pw grp
