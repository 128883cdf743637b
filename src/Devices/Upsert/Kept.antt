-- ===== src/Devices/Upsert/Kept.antt =====
-- What `upsertdevice` leaves as it is.
use lvyou_smsweb.World.{Env, World, ask, nowts}
use lvyou_smsweb.World.Preserves.{Preserves, preserves_rules, Preserves-bind}
use lvyou_smsweb.Values.{int_or_zero}
use lvyou_smsweb.Devices.Upsert.{
  refreshed, find_row, finish, read_report, upsertdevice, Report, find_holder, insert_new,
  store_found, store_report, update_after, update_found, write_row, release, new_id, query_row,
  created_row, updated,
}
use lvyou_smsweb.Json.{Fields, Json}
use lvyou_smsweb.Prelude.{ℕ, String, Option, List, some, none, ◌≡◌, ◌++◌, ◌∷◌, [], refl}
use lvyou_smsweb.Db.{Device}
use lvyou_smsweb.DeviceTable.{commit, flush, map_row}
use lvyou_smsweb.Client.Data.{getdevicedata}

-- `P` is kept by every question, by the commit of an allowed change, and by a flush; the changes that
-- give rows new values or add one are allowed.
module _ (env : Env) (P : World → Type 0) (asked : (A : Type 0) (f : ℕ → A) → Preserves P (ask f))
    (Allowed : (List Device → List Device) → Type 0)
    (committed : (f : List Device → List Device) → Allowed f → Preserves P (commit env f))
    (flushed : (f : List Device → List Device) → Preserves P (flush env f))
    (changing : (id : ℕ) (g : Device → Device) (freed : Option (Device × String))
      → ((d : Device) → (g d).id ≡ d.id)
      → Allowed (λ rows. map_row id g (release env freed rows)))
    (adding : (row : ℕ → Device) → Allowed (λ rows. rows ++ row (new_id rows) ∷ []))
    (queried : (f : List Device → Option Device) → Preserves P (query_row env f))
    (answered : (ip user pw : String) → Preserves P (getdevicedata env ip user pw)) where
  int_or_zero-Kept : (v : Json) → Preserves P (int_or_zero env v)
  unfolding int_or_zero
  int_or_zero-Kept v = search preserves_rules

  read_report-Kept : (d : Fields) → Preserves P (read_report env d)
  unfolding read_report
  read_report-Kept d = search (preserves_rules, int_or_zero-Kept) depth 24

  find_row-Kept :
      (dev_id mac : Option String) (ip : String) → Preserves P (find_row env dev_id mac ip)
  unfolding find_row
  find_row-Kept dev_id mac ip = search (preserves_rules, queried) depth 10

  find_holder-Kept : (d : Device) (ip : String) → Preserves P (find_holder env d ip)
  unfolding find_holder
  find_holder-Kept d ip = search (preserves_rules, queried) depth 10

  refreshed-Kept :
      (ip : String) (problem : Option String) (row : List Device → Option Device)
      → Preserves P (refreshed env ip problem row)
  unfolding refreshed
  refreshed-Kept ip (some text) row = search preserves_rules
  refreshed-Kept ip none row = search (preserves_rules, queried)

  finish-Kept :
      (ip : String) (change : List Device → List Device) (row : List Device → Option Device)
      → Allowed change
      → Preserves P (finish env ip change row)
  unfolding finish
  finish-Kept ip change row h = search (preserves_rules, committed, refreshed-Kept) depth 10

  module _ (r : Report) (mac : Option String) (ip user pw : String) (grp : Option String) where
    write_row-Kept :
        (d : Device) (freed : Option (Device × String))
        → Preserves P (write_row env r mac ip user pw grp d freed)
    unfolding write_row nowts
    write_row-Kept d freed = Preserves-bind _ _ (asked ℕ _) (λ now.
        finish-Kept ip _ _ (changing d.id (updated env r mac ip user pw grp now) freed (λ e. refl)))

    update_after-Kept :
        (d : Device) (holder : Option Device)
        → Preserves P (update_after env r mac ip user pw grp d holder)
    unfolding update_after nowts
    update_after-Kept d none = write_row-Kept d none
    update_after-Kept d (some h) =
        search (preserves_rules, asked, flushed, write_row-Kept, refreshed-Kept) depth 10

    update_found-Kept : (d : Device) → Preserves P (update_found env r mac ip user pw grp d)
    unfolding update_found
    update_found-Kept d = search (preserves_rules, find_holder-Kept, update_after-Kept)

    insert_new-Kept : Preserves P (insert_new env r mac ip user pw grp)
    unfolding insert_new nowts
    insert_new-Kept = Preserves-bind _ _ (asked ℕ _) (λ now.
        Preserves-bind _ _ (asked String _) (λ created.
          finish-Kept ip _ _ (adding (created_row env r mac ip user pw grp now created))))

    store_found-Kept :
        (found : Option Device) → Preserves P (store_found env r mac ip user pw grp found)
    unfolding store_found
    store_found-Kept none = insert_new-Kept
    store_found-Kept (some d) = update_found-Kept d

    store_report-Kept : Preserves P (store_report env r mac ip user pw grp)
    unfolding store_report
    store_report-Kept = search (preserves_rules, find_row-Kept, store_found-Kept)

  pub upsertdevice-Kept :
      (ip mac user pw : String) (grp : Option String)
      → Preserves P (upsertdevice env ip mac user pw grp)
  unfolding upsertdevice
  upsertdevice-Kept ip mac user pw grp =
      search (preserves_rules, answered, read_report-Kept, store_report-Kept) depth 10
