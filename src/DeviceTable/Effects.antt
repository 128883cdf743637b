-- ===== src/DeviceTable/Effects.antt =====
-- Invariants of the statements on the table devices.
use lvyou_smsweb.Prelude.{List, Option, String, Bool, some, suc, none, false, true}
use lvyou_smsweb.World.{Env, World}
use lvyou_smsweb.DeviceTable.{flush, commit, checked, satisfies}
use lvyou_smsweb.Db.{Device, Db}
use lvyou_smsweb.World.Preserves.{Preserves, OnDb}

module _ (Q : Db → Type 0) (env : Env) where
  checked-OnDb :
      (o : Option String) (good : Bool) (f : List Device → List Device) (w : World)
      → OnDb Q w
      → Q (record w.db { devices = f w.db.devices })
      → OnDb Q
          (checked env o good (λ v. record v { db = record v.db { devices = f v.db.devices } }) w).1
  checked-OnDb (some e) good f w h k = h
  checked-OnDb none false f w h k = h
  checked-OnDb none true f w h k = record { at = k }

  -- A commit keeps what its change keeps.
  pub commit-OnDb :
      (f : List Device → List Device)
      → ((db : Db) → Q db → Q (record db { devices = f db.devices }))
      → Preserves (OnDb Q) (commit env f)
  unfolding commit
  commit-OnDb f hf = record {
    holds = λ w h.
        checked-OnDb (env.db_fails w.tick) (satisfies (f w.db.devices)) f
          (record w { tick = suc w.tick }) (record { at = h.at }) (hf w.db h.at);
  }

  checked_flush-OnDb :
      (o : Option String) (good : Bool) (w : World)
      → OnDb Q w
      → OnDb Q (checked env o good (λ v. v) w).1
  checked_flush-OnDb (some e) good w h = h
  checked_flush-OnDb none false w h = h
  checked_flush-OnDb none true w h = h

  -- A flush writes nothing that stays.
  pub flush-OnDb : (f : List Device → List Device) → Preserves (OnDb Q) (flush env f)
  unfolding flush
  flush-OnDb f = record {
    holds = λ w h.
        checked_flush-OnDb (env.db_fails w.tick) (satisfies (f w.db.devices))
          (record w { tick = suc w.tick }) (record { at = h.at });
  }
