-- ===== src/System/Lists.antt =====
-- Which addresses the lists, the changes of rows and the sweep contact.
use lvyou_smsweb.World.{Env}
use lvyou_smsweb.Scan.Routes.{cleanup_round}
use lvyou_smsweb.RateLimit.{cleanup_rate_events}
use lvyou_smsweb.Devices.Rows.{
  api_set_alias, api_batch_delete, cleanup_stale_devices, api_set_group, require_device,
  deletedevice,
}
use lvyou_smsweb.Devices.Listing.{apidevices, apidevicesgroups, apinumbers, getallnumbers}
use lvyou_smsweb.Prelude.{ℕ, List, String, ◌∷◌, []}
use lvyou_smsweb.Scan.Confined.{cleanup_old_scans-Safe}
use lvyou_smsweb.System.Gate.{cleanup_tokens-Safe}
use lvyou_smsweb.Invariant.{Safe, base_rules, commit-Safe}

module _ (env : Env) (H : Type 0) where
  require-Safe : (id : ℕ) → Safe env H (require_device env id)
  unfolding require_device
  require-Safe id = search base_rules

  pub apidevices-Safe :
      (page size : ℕ) (q group : String) → Safe env H (apidevices env page size q group)
  unfolding apidevices
  apidevices-Safe page size q group = search base_rules depth 10

  pub groups-Safe : Safe env H (apidevicesgroups env)
  unfolding apidevicesgroups
  groups-Safe = search base_rules

  pub apinumbers-Safe :
      (page size : ℕ) (q group : String) → Safe env H (apinumbers env page size q group)
  unfolding apinumbers getallnumbers
  apinumbers-Safe page size q group = search base_rules

  pub api_set_alias-Safe : (id : ℕ) (text : String) → Safe env H (api_set_alias env id text)
  unfolding api_set_alias
  api_set_alias-Safe id text = search (base_rules, require-Safe, commit-Safe)

  pub api_set_group-Safe : (id : ℕ) (text : String) → Safe env H (api_set_group env id text)
  unfolding api_set_group
  api_set_group-Safe id text = search (base_rules, require-Safe, commit-Safe)

  pub deletedevice-Safe : (id : ℕ) → Safe env H (deletedevice env id)
  unfolding deletedevice
  deletedevice-Safe id = search (base_rules, require-Safe, commit-Safe)

  pub api_batch_delete-Safe : (ids : List ℕ) → Safe env H (api_batch_delete env ids)
  unfolding api_batch_delete
  api_batch_delete-Safe [] = search base_rules
  api_batch_delete-Safe (i ∷ ids) = search (base_rules, commit-Safe)

  stale-Safe : Safe env H (cleanup_stale_devices env)
  unfolding cleanup_stale_devices
  stale-Safe = search (base_rules, commit-Safe)

  events-Safe : (age : ℕ) → Safe env H (cleanup_rate_events env age)
  unfolding cleanup_rate_events
  events-Safe age = search base_rules

  pub cleanup_round-Safe : (age : ℕ) → Safe env H (cleanup_round env age)
  unfolding cleanup_round
  cleanup_round-Safe age =
      search (base_rules, cleanup_old_scans-Safe, cleanup_tokens-Safe, events-Safe, stale-Safe)
        depth 10
