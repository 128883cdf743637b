-- ===== src/Devices/Rows/Isolation.antt =====
-- What the handlers that are asked about one row do to the others.
use lvyou_smsweb.Prelude.{
  [], ◌∷◌, ℕ, String, Option, List, ◌≡◌, ◌≢◌, find, ◌==◌, filter, arith, not, number_comparable,
  ◌∙◌, refl, some, none, suc, find-holds, sym, or_else, ltb, strip, text_length,
}
use lvyou_smsweb.World.{
  Env, World, or_raise, Exec, transact, pure, transacted, ok, raise, http, ◌>>=◌,
}
use lvyou_smsweb.Db.{Device, Db}
use lvyou_smsweb.Devices.Rows.{api_set_group, api_set_alias, deletedevice, require_device}
use lvyou_smsweb.World.Preserves.{
  db_rules, Preserves-bind_ok, Preserves-if, Preserves, OnDb, bind-steps, Preserves-raise,
}
use lvyou_smsweb.DeviceTable.{map_row, commit, select_device}
use lvyou_smsweb.DeviceTable.Effects.{commit-OnDb}

-- The row of an identifier.
abbrev pub row_of : ℕ → List Device → Option Device
row_of t rows = find (λ d. d.id == t) rows

abbrev HasRow : ℕ → Option Device → Db → Type 0
HasRow t x db = row_of t db.devices ≡ x

map_row-other :
    (t devid : ℕ) (f : Device → Device) (rows : List Device)
    → t ≢ devid
    → ((d : Device) → (f d).id ≡ d.id)
    → row_of t (map_row devid f rows) ≡ row_of t rows
map_row-other t devid f [] ne keeps = refl
map_row-other t devid f (d ∷ ds) ne keeps =
    ground (arith, keeps d, map_row-other t devid f ds ne keeps)

filter-other :
    (t devid : ℕ) (rows : List Device)
    → t ≢ devid
    → row_of t (filter (λ d. not (d.id == devid)) rows) ≡ row_of t rows
filter-other t devid [] ne = refl
filter-other t devid (d ∷ ds) ne = ground (arith, filter-other t devid ds ne)

module _ (env : Env) (t : ℕ) (x : Option Device) where
  abbrev Keeps : {A : Type 0} → Exec A → Type 0
  Keeps m = Preserves (OnDb (HasRow t x)) m

  require-Keeps : (devid : ℕ) → Keeps (require_device env devid)
  unfolding require_device
  require-Keeps devid = search db_rules

  found-id :
      (o : Option Device) (w : World) (d : Device)
      → (or_raise o (http 404 "Device not found") w).0 ≡ ok d
      → o ≡ some d
  unfolding or_raise pure raise
  found-id none w d h = ground arith
  found-id (some e) w d h = ground arith

  transacted-found :
      (o : Option String) (devid : ℕ) (db : Db) (w : World) (found : Option Device)
      → (transacted o (select_device devid db) w).0 ≡ ok found
      → found ≡ row_of devid db.devices
  transacted-found none devid db w found h = ground arith
  transacted-found (some e) devid db w found h = ground arith

  require-id :
      (devid : ℕ) (w : World) (d : Device) → (require_device env devid w).0 ≡ ok d → d.id ≡ devid
  unfolding require_device transact
  require-id devid w d h =
      let (found, (e, k)) = bind-steps (transact env (select_device devid)) _ w d h in
      let same =
        transacted-found (env.db_fails w.tick) devid w.db (record w { tick = suc w.tick }) found
          e in
      let is = found-id found _ d k in
      let good = find-holds (λ r. r.id == devid) w.db.devices d (sym same ∙ is) in ground arith

  update-Keeps :
      (d : Device) (devid : ℕ) (f : Device → Device)
      → d.id ≡ devid
      → t ≢ devid
      → ((r : Device) → (f r).id ≡ r.id)
      → Keeps (commit env (map_row d.id f))
  update-Keeps d devid f e ne keeps =
      commit-OnDb (HasRow t x) env (map_row d.id f)
        (λ db h. map_row-other t d.id f db.devices (λ p. ne (p ∙ e)) keeps ∙ h)

  change-Keeps :
      (devid : ℕ) (f : Device → Device)
      → t ≢ devid
      → ((r : Device) → (f r).id ≡ r.id)
      → Keeps (require_device env devid >>= λ d. commit env (map_row d.id f))
  change-Keeps devid f ne keeps =
      Preserves-bind_ok _ _ (require-Keeps devid)
        (λ w d e. update-Keeps d devid f (require-id devid w d e) ne keeps)

  alias-Keeps : (devid : ℕ) (text : String) → t ≢ devid → Keeps (api_set_alias env devid text)
  unfolding api_set_alias
  alias-Keeps devid text ne =
      Preserves-if (ltb 24 (text_length (strip text))) _ _
        (λ _. Preserves-raise (http 400 "alias too long"))
        (λ _. change-Keeps devid (λ r. record r { alias = some (strip text) }) ne (λ r. refl))

  group-Keeps : (devid : ℕ) (text : String) → t ≢ devid → Keeps (api_set_group env devid text)
  unfolding api_set_group
  group-Keeps devid text ne =
      change-Keeps devid (λ r. record r { grp = some (or_else (strip text) "auto") }) ne (λ r. refl)

  delete-Keeps : (devid : ℕ) → t ≢ devid → Keeps (deletedevice env devid)
  unfolding deletedevice
  delete-Keeps devid ne = Preserves-bind_ok _ _ (require-Keeps devid) (λ w d e.
      commit-OnDb (HasRow t x) env _
        (λ db h. filter-other t d.id db.devices (λ p. ne (p ∙ require-id devid w d e)) ∙ h))

-- Naming, grouping and deleting a board leave the row of every other identifier as it is, whether
-- the handler succeeds or fails.
pub other_rows_kept :
    (env : Env) (t devid : ℕ) (text : String) (w : World)
    → t ≢ devid
    → (row_of t (api_set_alias env devid text w).1.db.devices ≡ row_of t w.db.devices)
      × ((row_of t (api_set_group env devid text w).1.db.devices ≡ row_of t w.db.devices)
          × (row_of t (deletedevice env devid w).1.db.devices ≡ row_of t w.db.devices))
other_rows_kept env t devid text w ne =
    let x = row_of t w.db.devices in
    (
      ((alias-Keeps env t x devid text ne).holds w (record { at = refl })).at,
      (
        ((group-Keeps env t x devid text ne).holds w (record { at = refl })).at,
        ((delete-Keeps env t x devid ne).holds w (record { at = refl })).at,
      ),
    )
