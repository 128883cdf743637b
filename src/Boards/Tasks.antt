-- ===== src/Boards/Tasks.antt =====
-- The tasks of backend/routes/config.py: what is done for one board.
pub mod Writes
pub mod Confirmed
use lvyou_smsweb.Prelude.{
  ℕ, String, Bool, Option, if◌then◌else◌, List, ◌==◌, not, concat, some, false, [], ◌∷◌,
  text_comparable, none, true, show_ℕ,
}
use lvyou_smsweb.World.{Env, Exec, ◌>>=◌, try_except, ◌>>◌, pure, audit_detail}
use lvyou_smsweb.DeviceTable.{ConnInfo}
use lvyou_smsweb.Boards.Content.{apply_regex, apply_clean_message_template, validate_config_content}
use lvyou_smsweb.Client.Data.{write_device_config, read_device_config}
use lvyou_smsweb.Devices.Batch.{task_error}

-- What a task returns. A preview is changed where its two texts differ.
pub data ConfigReply : Type 0 where
  config_error : ℕ → String → String → ConfigReply
  config_read : ℕ → String → String → ConfigReply
  config_preview : ℕ → String → String → ConfigReply
  config_written : ℕ → String → Bool → ConfigReply

module _ (env : Env) where
  abbrev pub read_reply : ConnInfo → Option String → ConfigReply
  read_reply info none = config_error info.id info.ip "读取配置失败"
  read_reply info (some config) = config_read info.id info.ip config

  unfoldable pub config_read_task_sync : ConnInfo → Exec ConfigReply
  config_read_task_sync info =
      try_except
        (do
          config ← read_device_config env info.ip info.user info.pw
          pure (read_reply info config))
        (λ e. pure (config_error info.id info.ip (task_error "读取配置失败" e)))

  abbrev pub preview_reply : ConnInfo → String → String → Option String → ConfigReply
  preview_reply info error config none = config_error info.id info.ip error
  preview_reply info error config (some replaced) = config_preview info.id config replaced

  unfoldable pub preview_regex :
      ConnInfo → String → String → String → ConfigReply → Exec ConfigReply
  unfolding apply_regex
  preview_regex info pattern replacement flags_str (config_read id ip config) = do
    replaced ← apply_regex env config pattern replacement flags_str
    pure (preview_reply info "正则表达式或标志位无效" config replaced)
  preview_regex info pattern replacement flags_str reply = pure reply

  unfoldable pub config_preview_task_sync : String → String → String → ConnInfo → Exec ConfigReply
  unfolding preview_regex config_read_task_sync
  config_preview_task_sync pattern replacement flags_str info = do
    result ← config_read_task_sync info
    preview_regex info pattern replacement flags_str result

  unfoldable pub preview_preset : ConnInfo → String → ConfigReply → ConfigReply
  unfolding apply_clean_message_template
  preview_preset info preset (config_read id ip config) =
      if not (preset == "clean_message_templates")
      then config_error info.id info.ip "未知配置预设"
      else preview_reply info "主配置 JSON 无效，不能应用预设" config (apply_clean_message_template env config)
  preview_preset info preset reply = reply

  unfoldable pub config_preset_preview_task_sync : String → ConnInfo → Exec ConfigReply
  unfolding preview_preset config_read_task_sync
  config_preset_preview_task_sync preset info = do
    result ← config_read_task_sync info
    pure (preview_preset info preset result)

  module _ (info : ConnInfo) (action detail original replaced : String) where
    abbrev pub error_reply : String → ConfigReply
    error_reply text = config_error info.id info.ip text

    -- What the board has saved is bad: the original is written back, whatever comes of that.
    unfoldable pub restore : String → Exec ConfigReply
    unfolding write_device_config
    restore saved_error = do
      write_device_config env info.ip info.user info.pw original
      pure (error_reply (concat ("写入后校验失败，已尝试恢复原配置：" ∷ saved_error ∷ [])))

    unfoldable pub check_saved : Option String → Exec ConfigReply
    unfolding restore
    check_saved (some saved_error) = restore saved_error
    check_saved none = do audit_detail action detail; pure (config_written info.id info.ip true)

    unfoldable pub check_read_back : Option String → Exec ConfigReply
    unfolding check_saved validate_config_content
    check_read_back none = pure (error_reply "写入后读取校验失败")
    check_read_back (some saved) = check_saved (validate_config_content env original saved)

    unfoldable pub write_checked : Option String → Exec ConfigReply
    unfolding check_read_back write_device_config read_device_config
    write_checked (some validation_error) = pure (error_reply validation_error)
    write_checked none = do
      written ← write_device_config env info.ip info.user info.pw replaced
      if not written
          then pure (error_reply "写入配置失败")
          else do saved ← read_device_config env info.ip info.user info.pw; check_read_back saved

  -- A preview is applied: what is not changed is not written.
  unfoldable pub write_preview : ConnInfo → String → String → ConfigReply → Exec ConfigReply
  unfolding write_checked validate_config_content
  write_preview info action detail (config_preview id original replaced) =
      if original == replaced
      then pure (config_written info.id info.ip false)
      else write_checked info action detail original replaced
          (validate_config_content env original replaced)
  write_preview info action detail reply = pure reply

  abbrev pub about : ConnInfo → List String → String
  about info rest = concat ("device=" ∷ show_ℕ info.id ∷ " ip=" ∷ info.ip ∷ rest)

  unfoldable pub config_write_task_sync : String → String → String → ConnInfo → Exec ConfigReply
  unfolding config_preview_task_sync write_preview
  config_write_task_sync pattern replacement flags_str info = do
    preview ← config_preview_task_sync pattern replacement flags_str info
    write_preview info "config_write" (about info []) preview

  unfoldable pub config_preset_write_task_sync : String → ConnInfo → Exec ConfigReply
  unfolding config_preset_preview_task_sync write_preview
  config_preset_write_task_sync preset info = do
    preview ← config_preset_preview_task_sync preset info
    write_preview info "config_preset_write" (about info (" preset=" ∷ preset ∷ [])) preview
