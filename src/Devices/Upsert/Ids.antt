-- ===== src/Devices/Upsert/Ids.antt =====
-- The identifiers of the rows that `upsertdevice` leaves.
use lvyou_smsweb.Db.{Db, Device}
use lvyou_smsweb.World.{Env, World, Call}
use lvyou_smsweb.World.Preserves.{
  Preserves, Preserves-bind, OnDb, db_rules, OnDb-ask, OnDb-transact,
}
use lvyou_smsweb.DeviceTable.{map_row, flush}
use lvyou_smsweb.Client.Data.{getdevicedata, query_board, json_of}
use lvyou_smsweb.Security.Allow.Layers.{ensure-Preserves, local_ipv4_networks-OnDb}
use lvyou_smsweb.Devices.Upsert.{upsertdevice, release}
use lvyou_smsweb.Devices.Upsert.Kept.{upsertdevice-Kept}
use lvyou_smsweb.Prelude.{
  ℕ, List, ◌≡◌, map, ◌++◌, String, Option, refl, ◌∷◌, some, ◌∙◌, [], sym, none, Bool, ap,
  if◌then◌else◌, ◌==◌, true, false,
}
use lvyou_smsweb.DeviceTable.Effects.{flush-OnDb, commit-OnDb}

abbrev pub ids_in : List Device → List ℕ
ids_in rows = map (λ d. d.id) rows

-- The list begins with another one.
abbrev pub Extends : List ℕ → List ℕ → Type 0
Extends old ids = (new : List ℕ) × (ids ≡ old ++ new)

append_nil : (xs : List ℕ) → xs ++ [] ≡ xs
append_nil [] = refl
append_nil (x ∷ xs) = ap (λ r. x ∷ r) (append_nil xs)

append_assoc : (xs ys zs : List ℕ) → (xs ++ ys) ++ zs ≡ xs ++ (ys ++ zs)
append_assoc [] ys zs = refl
append_assoc (x ∷ xs) ys zs = ap (λ r. x ∷ r) (append_assoc xs ys zs)

Extends-trans : (xs ys zs : List ℕ) → Extends xs ys → Extends ys zs → Extends xs zs
Extends-trans xs ys zs (a, e) (b, f) = (a ++ b, f ∙ ap (λ r. r ++ b) e ∙ append_assoc xs a b)

Extends-same : (xs ys : List ℕ) → ys ≡ xs → Extends xs ys
Extends-same xs ys e = ([], e ∙ sym (append_nil xs))

ids-map_row :
    (id : ℕ) (g : Device → Device) (rows : List Device)
    → ((d : Device) → (g d).id ≡ d.id)
    → ids_in (map_row id g rows) ≡ ids_in rows
ids-map_row id g [] same = refl
ids-map_row id g (d ∷ rows) same = cc (one (d.id == id), ids-map_row id g rows same)
  where
    one : (b : Bool) → (if b then g d else d).id ≡ d.id
    one true = same d
    one false = refl

ids-add : (rows : List Device) (d : Device) → ids_in (rows ++ d ∷ []) ≡ ids_in rows ++ (d.id ∷ [])
ids-add [] d = refl
ids-add (e ∷ rows) d = ap (λ r. e.id ∷ r) (ids-add rows d)

-- Changes that keep the rows of a table, in their order.
abbrev Grows : (List Device → List Device) → Type 0
Grows f = (rows : List Device) → Extends (ids_in rows) (ids_in (f rows))

module _ (env : Env) where
  release-ids :
      (freed : Option (Device × String)) (rows : List Device)
      → ids_in (release env freed rows) ≡ ids_in rows
  release-ids none rows = refl
  release-ids (some (h, name)) rows =
      ids-map_row h.id (λ d. record d { ip = name }) rows (λ d. refl)

  changing :
      (id : ℕ) (g : Device → Device) (freed : Option (Device × String))
      → ((d : Device) → (g d).id ≡ d.id)
      → Grows (λ rows. map_row id g (release env freed rows))
  changing id g freed same rows =
      Extends-same _ _ (ids-map_row id g (release env freed rows) same ∙ release-ids freed rows)

  module _ (old : List ℕ) where
    abbrev Q : Db → Type 0
    Q db = Extends old (ids_in db.devices)

    query_board-Grows : (c : Call) → Preserves (OnDb Q) (query_board env c)
    unfolding query_board json_of
    query_board-Grows c = search db_rules depth 10

    getdevicedata-Grows : (ip user pw : String) → Preserves (OnDb Q) (getdevicedata env ip user pw)
    unfolding getdevicedata
    getdevicedata-Grows ip user pw =
        Preserves-bind _ _ (ensure-Preserves env ip (local_ipv4_networks-OnDb Q env))
          (λ u. query_board-Grows _)

    flush-Grows : (f : List Device → List Device) → Preserves (OnDb Q) (flush env f)
    flush-Grows f = flush-OnDb Q env f

    upsertdevice-Grows :
        (ip mac user pw : String) (grp : Option String)
        → Preserves (OnDb Q) (upsertdevice env ip mac user pw grp)
    upsertdevice-Grows =
        upsertdevice-Kept env (OnDb Q) (λ A f. OnDb-ask Q f) Grows
          (λ f grows. commit-OnDb Q env f (λ db h. Extends-trans old _ _ h (grows db.devices)))
          flush-Grows changing (λ row rows. (_, ids-add rows _))
          (λ f. OnDb-transact Q env (λ db. (db, f db.devices)) (λ db h. h)) getdevicedata-Grows

-- Storing what a scan found loses no board: whatever the board answers and whichever statement
-- fails, the rows of the table after `upsertdevice` are those before it, with the same identifiers
-- in the same order, and at most new ones behind them. In particular the row whose address was
-- taken over is still there.
pub upsertdevice-Extends :
    (env : Env) (ip mac user pw : String) (grp : Option String) (w : World)
    → Extends (ids_in w.db.devices) (ids_in (upsertdevice env ip mac user pw grp w).1.db.devices)
upsertdevice-Extends env ip mac user pw grp w =
    ((upsertdevice-Grows env (ids_in w.db.devices) ip mac user pw grp).holds w
      (record { at = Extends-same _ _ refl })).at
