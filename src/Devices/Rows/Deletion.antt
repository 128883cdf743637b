-- ===== src/Devices/Rows/Deletion.antt =====
-- What `api_batch_delete` does to the rows.
use lvyou_smsweb.Prelude.{[], ◌∷◌, Bool, List, length, filter, ◌+◌, not, ℕ, ◌≡◌, arith}
use lvyou_smsweb.Db.{Device}
use lvyou_smsweb.Devices.Rows.{api_batch_delete}
use lvyou_smsweb.DeviceTable.{commit, is_listed}
use lvyou_smsweb.World.{transact, ◌>>=◌, pure, Env, World, ok}

filter-split :
    (p : Device → Bool) (rows : List Device)
    → length (filter p rows) + length (filter (λ d. not (p d)) rows) ≡ length rows
filter-split p [] = omega arith
filter-split p (d ∷ ds) = ground (arith, filter-split p ds)

-- A batch deletion that returns leaves exactly the rows whose identifiers the request does not list,
-- unchanged and in their order, and returns how many rows are gone.
pub api_batch_delete-exact :
    (env : Env) (i : ℕ) (ids : List ℕ) (n : ℕ) (w w' : World)
    → api_batch_delete env (i ∷ ids) w ≡ (ok n, w')
    → (w'.db.devices ≡ filter (λ d. not (is_listed (i ∷ ids) d)) w.db.devices)
      × (n + length w'.db.devices ≡ length w.db.devices)
unfolding api_batch_delete commit transact ◌>>=◌ pure
api_batch_delete-exact env i ids n w w' h =
    let split = filter-split (is_listed (i ∷ ids)) w.db.devices in ground arith
