-- ===== src/Devices/Confined/Rows.antt =====
-- Which addresses `api_device_detail` and `upsertdevice` contact.
use lvyou_smsweb.World.{Env}
use lvyou_smsweb.Devices.Rows.{require_device, api_device_detail}
use lvyou_smsweb.Devices.Upsert.{upsertdevice}
use lvyou_smsweb.Prelude.{ℕ, String, Option}
use lvyou_smsweb.Invariant.{
  Safe, base_rules, commit-Safe, flush-Safe, Good, ask-Safe, transact-Safe,
}
use lvyou_smsweb.Client.Confined.{getdevicedata-Safe}
use lvyou_smsweb.Devices.Upsert.Kept.{upsertdevice-Kept}

module _ (env : Env) (H : Type 0) where
  pub upsertdevice-Safe :
      (ip mac user pw : String) (grp : Option String)
      → Safe env H (upsertdevice env ip mac user pw grp)
  upsertdevice-Safe =
      upsertdevice-Kept env (Good env H) (λ A f. ask-Safe env H f) (λ f. Unit {0})
        (λ f _. commit-Safe env H f) (flush-Safe env H) (λ id g freed same. tt) (λ row. tt)
        (λ f. transact-Safe env H (λ db. (db, f db.devices)) (λ db h. h)) (getdevicedata-Safe env H)

  require_device-Safe : (devid : ℕ) → Safe env H (require_device env devid)
  unfolding require_device
  require_device-Safe devid = search base_rules

  pub api_device_detail-Safe : (devid : ℕ) → Safe env H (api_device_detail env devid)
  unfolding api_device_detail
  api_device_detail-Safe devid =
      search (base_rules, require_device-Safe, getdevicedata-Safe) depth 10
