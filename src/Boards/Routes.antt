-- ===== src/Boards/Routes.antt =====
-- The routes of backend/routes/config.py.
use lvyou_smsweb.World.{Env, Exec, raise, ◌>>◌, http, ◌>>=◌, traverse, audit_detail, pure}
use lvyou_smsweb.Prelude.{
  String, List, ℕ, if◌then◌else◌, is_empty, ◌∷◌, ltb, length, text_length, concat, [], show_ℕ,
}
use lvyou_smsweb.Boards.Tasks.{
  ConfigReply, config_read_task_sync, config_preview_task_sync, config_preset_preview_task_sync,
  config_write_task_sync, config_preset_write_task_sync,
}
use lvyou_smsweb.Devices.Batch.{select_infos}

module _ (env : Env) where
  unfoldable pub validate_config_regex : String → String → Exec (Unit {0})
  validate_config_regex pattern replacement =
      if is_empty pattern
      then raise (http 400 "正则表达式不能为空")
      else if ltb 10000 (text_length pattern)
      then raise (http 400 "正则表达式过长")
      else if ltb env.config.config_max_chars (text_length replacement)
      then raise (http 400 "替换内容过长")
      else pure tt

  unfoldable pub check_config_device_ids : List ℕ → Exec (Unit {0})
  check_config_device_ids [] = raise (http 400 "device_ids required")
  check_config_device_ids (i ∷ ids) =
      if ltb env.config.ota_batch_max (length (i ∷ ids))
      then raise (http 400 (concat ("单次批量配置不得超过 " ∷ show_ℕ env.config.ota_batch_max ∷ " 台" ∷ [])))
      else pure tt

  unfoldable pub api_batch_config_read : List ℕ → Exec (List ConfigReply)
  unfolding check_config_device_ids
  api_batch_config_read ids = do
    check_config_device_ids ids
    infos ← select_infos env ids
    traverse (config_read_task_sync env) infos

  unfoldable pub api_batch_config_preview :
      List ℕ → String → String → String → Exec (List ConfigReply)
  unfolding check_config_device_ids validate_config_regex
  api_batch_config_preview ids pattern replacement flags = do
    validate_config_regex pattern replacement
    check_config_device_ids ids
    infos ← select_infos env ids
    traverse (config_preview_task_sync env pattern replacement flags) infos

  unfoldable pub api_batch_config_preset_preview : List ℕ → String → Exec (List ConfigReply)
  unfolding check_config_device_ids
  api_batch_config_preset_preview ids preset = do
    check_config_device_ids ids
    infos ← select_infos env ids
    traverse (config_preset_preview_task_sync env preset) infos

  unfoldable pub api_batch_config_write :
      List ℕ → String → String → String → Exec (List ConfigReply)
  unfolding check_config_device_ids validate_config_regex
  api_batch_config_write ids pattern replacement flags = do
    validate_config_regex pattern replacement
    check_config_device_ids ids
    infos ← select_infos env ids
    audit_detail "batch_config_write" (
        concat
          ("count=" ∷ show_ℕ (length infos) ∷ " pattern_len=" ∷ show_ℕ (text_length pattern) ∷ []))
    traverse (config_write_task_sync env pattern replacement flags) infos

  unfoldable pub api_batch_config_preset_write : List ℕ → String → Exec (List ConfigReply)
  unfolding check_config_device_ids
  api_batch_config_preset_write ids preset = do
    check_config_device_ids ids
    infos ← select_infos env ids
    audit_detail "batch_config_preset_write"
        (concat ("count=" ∷ show_ℕ (length infos) ∷ " preset=" ∷ preset ∷ []))
    traverse (config_preset_write_task_sync env preset) infos
