-- ===== src/Client/Tasks.antt =====
-- Which addresses the firmware tasks and the dialling token of backend/device_client.py contact.
use lvyou_smsweb.World.{Env, World, ◌>>=◌, ok}
use lvyou_smsweb.Client.Ota.{
  new_device_token, upgrade_found, check_found, check_ota_task, check_answer, upgrade_answer,
  store_version, ensure_device_token, ota_check, upgrade_ota_task,
}
use lvyou_smsweb.Db.{Device}
use lvyou_smsweb.Json.{Fields}
use lvyou_smsweb.Prelude.{String, ℕ, Option, ◌⊎◌, inl, some, ◌≡◌, inr, none}
use lvyou_smsweb.Security.Allow.Layers.{IsInternal, ensure-IsInternal}
use lvyou_smsweb.DeviceTable.{user_of, passwd_of}
use lvyou_smsweb.Security.Allow.{ensure_device_ip_allowed}
use lvyou_smsweb.World.Preserves.{bind-ok, Preserves-bind_ok}
use lvyou_smsweb.Invariant.{Safe, base_rules, send-Safe}
use lvyou_smsweb.Client.Confined.{
  safe_rules, istargetdevice-Safe, ota_check-Safe, fetch_device_token-Safe,
}

module _ (env : Env) where
  pub ota_check-IsInternal :
      (ip user pw : String) (w : World) (d : Fields)
      → (ota_check env ip user pw w).0 ≡ ok d
      → IsInternal env ip
  unfolding ota_check
  ota_check-IsInternal ip user pw w d h =
      let (u, e) = bind-ok (ensure_device_ip_allowed env ip) _ w d h in ensure-IsInternal env ip w e

module _ (env : Env) (H : Type 0) where
  store_version-Safe : (devid : ℕ) (cur : String) → Safe env H (store_version env devid cur)
  unfolding store_version
  store_version-Safe devid cur = search base_rules

  check_answer-Safe : (d : Device) (a : Fields ⊎ String) → Safe env H (check_answer env d a)
  unfolding check_answer
  check_answer-Safe d (inl fields) = search (base_rules, store_version-Safe)
  check_answer-Safe d (inr e) = search base_rules

  check_found-Safe : (found : Option Device) (id : ℕ) → Safe env H (check_found env found id)
  unfolding check_found
  check_found-Safe none id = search base_rules
  check_found-Safe (some d) id = search (base_rules, check_answer-Safe, ota_check-Safe)

  pub check_ota_task-Safe : (id : ℕ) → Safe env H (check_ota_task env id)
  unfolding check_ota_task
  check_ota_task-Safe id = search (base_rules, check_found-Safe)

  upgrade_answer-Safe :
      (d : Device) (fields : Fields)
      → IsInternal env d.ip
      → Safe env H (upgrade_answer env d fields)
  unfolding upgrade_answer
  upgrade_answer-Safe d fields h = search (base_rules, store_version-Safe, send-Safe) depth 10

  upgrade-Safe :
      (d : Device)
      → Safe env H (ota_check env d.ip (user_of d) (passwd_of d) >>= upgrade_answer env d)
  upgrade-Safe d =
      Preserves-bind_ok _ _ (ota_check-Safe env H d.ip (user_of d) (passwd_of d)) (λ w fields e.
        upgrade_answer-Safe d fields
          (ota_check-IsInternal env d.ip (user_of d) (passwd_of d) w fields e))

  upgrade_found-Safe : (found : Option Device) (id : ℕ) → Safe env H (upgrade_found env found id)
  unfolding upgrade_found
  upgrade_found-Safe none id = search base_rules
  upgrade_found-Safe (some d) id = search (base_rules, upgrade-Safe)

  pub upgrade_ota_task-Safe : (id : ℕ) → Safe env H (upgrade_ota_task env id)
  unfolding upgrade_ota_task
  upgrade_ota_task-Safe id = search (base_rules, upgrade_found-Safe)

  new_device_token-Safe : (d : Device) → Safe env H (new_device_token env d)
  unfolding new_device_token
  new_device_token-Safe d =
      search (safe_rules, istargetdevice-Safe, fetch_device_token-Safe) depth 14

  pub ensure_device_token-Safe : (d : Device) → Safe env H (ensure_device_token env d)
  unfolding ensure_device_token
  ensure_device_token-Safe d = search (base_rules, new_device_token-Safe)
