-- ===== src/Boards/Confined.antt =====
-- Which addresses the routes of backend/routes/config.py contact.
use lvyou_smsweb.World.{Env, Result, of_result, ok, Flags, err}
use lvyou_smsweb.DeviceTable.{ConnInfo}
use lvyou_smsweb.Boards.Routes.{
  api_batch_config_preview, api_batch_config_write, check_config_device_ids, validate_config_regex,
  api_batch_config_preset_preview, api_batch_config_preset_write, api_batch_config_read,
}
use lvyou_smsweb.Boards.Tasks.{
  config_write_task_sync, preview_regex, write_preview, config_preset_write_task_sync,
  config_preview_task_sync, config_read_task_sync, config_preset_preview_task_sync, ConfigReply,
  write_checked, check_saved, check_read_back, config_read, config_preview, restore, config_error,
  config_written,
}
use lvyou_smsweb.Boards.Content.{regex_with, apply_regex}
use lvyou_smsweb.Prelude.{String, List, Option, ℕ, some, ◌∷◌, none, []}
use lvyou_smsweb.Devices.Confined.Batch.{select_infos-Safe}
use lvyou_smsweb.Invariant.{Safe, base_rules}
use lvyou_smsweb.Client.Confined.{read_device_config-Safe, write_device_config-Safe}

module _ (env : Env) (H : Type 0) where
  of_result-Safe : {A : Type 0} (r : Result A) → Safe env H (of_result r)
  of_result-Safe (ok a) = search base_rules
  of_result-Safe (err e) = search base_rules

  regex-Safe :
      (config pattern replacement : String) (flags : Option Flags)
      → Safe env H (regex_with env config pattern replacement flags)
  unfolding regex_with
  regex-Safe config pattern replacement none = search base_rules
  regex-Safe config pattern replacement (some flags) = search (base_rules, of_result-Safe)

  read_task-Safe : (info : ConnInfo) → Safe env H (config_read_task_sync env info)
  unfolding config_read_task_sync
  read_task-Safe info = search (base_rules, read_device_config-Safe)

  preview_regex-Safe :
      (info : ConnInfo) (pattern replacement flags_str : String) (r : ConfigReply)
      → Safe env H (preview_regex env info pattern replacement flags_str r)
  unfolding preview_regex apply_regex
  preview_regex-Safe info pattern replacement flags_str (config_read id ip config) =
      search (base_rules, regex-Safe)
  preview_regex-Safe info pattern replacement flags_str (config_error id ip e) = search base_rules
  preview_regex-Safe info pattern replacement flags_str (config_preview id a b) = search base_rules
  preview_regex-Safe info pattern replacement flags_str (config_written id ip b) = search base_rules

  preview_task-Safe :
      (pattern replacement flags_str : String) (info : ConnInfo)
      → Safe env H (config_preview_task_sync env pattern replacement flags_str info)
  unfolding config_preview_task_sync
  preview_task-Safe pattern replacement flags_str info =
      search (base_rules, read_task-Safe, preview_regex-Safe)

  preset_preview_task-Safe :
      (preset : String) (info : ConnInfo)
      → Safe env H (config_preset_preview_task_sync env preset info)
  unfolding config_preset_preview_task_sync
  preset_preview_task-Safe preset info = search (base_rules, read_task-Safe)

  module _ (info : ConnInfo) (action detail original replaced : String) where
    check_saved-Safe :
        (o : Option String) → Safe env H (check_saved env info action detail original replaced o)
    unfolding check_saved restore
    check_saved-Safe none = search base_rules
    check_saved-Safe (some e) = search (base_rules, write_device_config-Safe)

    check_read_back-Safe :
        (o : Option String)
        → Safe env H (check_read_back env info action detail original replaced o)
    unfolding check_read_back
    check_read_back-Safe none = search base_rules
    check_read_back-Safe (some saved) = search (base_rules, check_saved-Safe)

    write_checked-Safe :
        (o : Option String) → Safe env H (write_checked env info action detail original replaced o)
    unfolding write_checked
    write_checked-Safe none =
        search (base_rules, write_device_config-Safe, read_device_config-Safe, check_read_back-Safe)
          depth 10
    write_checked-Safe (some e) = search base_rules

  write_preview-Safe :
      (info : ConnInfo) (action detail : String) (r : ConfigReply)
      → Safe env H (write_preview env info action detail r)
  unfolding write_preview
  write_preview-Safe info action detail (config_preview id a b) =
      search (base_rules, write_checked-Safe)
  write_preview-Safe info action detail (config_error id ip e) = search base_rules
  write_preview-Safe info action detail (config_read id ip e) = search base_rules
  write_preview-Safe info action detail (config_written id ip b) = search base_rules

  write_task-Safe :
      (pattern replacement flags_str : String) (info : ConnInfo)
      → Safe env H (config_write_task_sync env pattern replacement flags_str info)
  unfolding config_write_task_sync
  write_task-Safe pattern replacement flags_str info =
      search (base_rules, preview_task-Safe, write_preview-Safe)

  preset_write_task-Safe :
      (preset : String) (info : ConnInfo)
      → Safe env H (config_preset_write_task_sync env preset info)
  unfolding config_preset_write_task_sync
  preset_write_task-Safe preset info =
      search (base_rules, preset_preview_task-Safe, write_preview-Safe)

  check_ids-Safe : (ids : List ℕ) → Safe env H (check_config_device_ids env ids)
  unfolding check_config_device_ids
  check_ids-Safe [] = search base_rules
  check_ids-Safe (i ∷ ids) = search base_rules

  check_regex-Safe :
      (pattern replacement : String) → Safe env H (validate_config_regex env pattern replacement)
  unfolding validate_config_regex
  check_regex-Safe pattern replacement = search base_rules

  pub read-Safe : (ids : List ℕ) → Safe env H (api_batch_config_read env ids)
  unfolding api_batch_config_read
  read-Safe ids = search (base_rules, check_ids-Safe, select_infos-Safe, read_task-Safe)

  pub preview-Safe :
      (ids : List ℕ) (pattern replacement flags : String)
      → Safe env H (api_batch_config_preview env ids pattern replacement flags)
  unfolding api_batch_config_preview
  preview-Safe ids pattern replacement flags =
      search (base_rules, check_regex-Safe, check_ids-Safe, select_infos-Safe, preview_task-Safe)
        depth 10

  pub preset_preview-Safe :
      (ids : List ℕ) (preset : String) → Safe env H (api_batch_config_preset_preview env ids preset)
  unfolding api_batch_config_preset_preview
  preset_preview-Safe ids preset =
      search (base_rules, check_ids-Safe, select_infos-Safe, preset_preview_task-Safe)

  pub write-Safe :
      (ids : List ℕ) (pattern replacement flags : String)
      → Safe env H (api_batch_config_write env ids pattern replacement flags)
  unfolding api_batch_config_write
  write-Safe ids pattern replacement flags =
      search (base_rules, check_regex-Safe, check_ids-Safe, select_infos-Safe, write_task-Safe)
        depth 12

  pub preset_write-Safe :
      (ids : List ℕ) (preset : String) → Safe env H (api_batch_config_preset_write env ids preset)
  unfolding api_batch_config_preset_write
  preset_write-Safe ids preset =
      search (base_rules, check_ids-Safe, select_infos-Safe, preset_write_task-Safe) depth 10
