-- ===== src/Boards/Tasks/Confirmed.antt =====
-- What it means that a task of backend/routes/config.py reports a configuration as written.
use lvyou_smsweb.World.{Env, World, pure, ok, ◌>>=◌}
use lvyou_smsweb.DeviceTable.{ConnInfo}
use lvyou_smsweb.Prelude.{
  String, Bool, ℕ, Option, if◌then◌else◌, ◌≡◌, not, some, true, none, arith, refl, Bool-cases, ◌==◌,
  ◌∙◌, ap, inl, false, inr, text_comparable,
}
use lvyou_smsweb.Boards.Tasks.{
  check_saved, check_read_back, write_checked, write_preview, restore, config_preview, config_error,
  config_written,
}
use lvyou_smsweb.Client.Data.{read_device_config, write_device_config}
use lvyou_smsweb.Boards.Content.{validate_config_content}
use lvyou_smsweb.World.Preserves.{bind-steps}

-- From `w` on, the board accepts the new text, and what is read from it right after that write
-- passes the check.
abbrev pub Confirmed : Env → ConnInfo → String → String → World → Type 0
Confirmed env info original replaced w =
    let (written, v) = write_device_config env info.ip info.user info.pw replaced w in
    (written ≡ ok true)
    × ((saved : String) × (((read_device_config env info.ip info.user info.pw v).0
            ≡ ok (some saved))
          × (validate_config_content env original saved ≡ none)))

module _ (env : Env) (info : ConnInfo) (action detail original replaced : String) where
  check_saved-ok :
      (o : Option String) (w : World) (i : ℕ) (ip : String)
      → (check_saved env info action detail original replaced o w).0 ≡ ok (config_written i ip true)
      → o ≡ none
  unfolding check_saved restore pure
  check_saved-ok none w i ip h = refl
  check_saved-ok (some e) w i ip h =
      let (a, (ea, ha)) =
        bind-steps (write_device_config env info.ip info.user info.pw original) _ w _ h in
      ground arith

  read_back-ok :
      (o : Option String) (w : World) (i : ℕ) (ip : String)
      → (check_read_back env info action detail original replaced o w).0
        ≡ ok (config_written i ip true)
      → (saved : String) × ((o ≡ some saved) × (validate_config_content env original saved ≡ none))
  unfolding check_read_back pure
  read_back-ok none w i ip h = ground arith
  read_back-ok (some saved) w i ip h = (saved, (refl, check_saved-ok _ w i ip h))

  written-ok :
      (written : Bool) (w : World) (i : ℕ) (ip : String)
      → ((if not written
            then pure (config_error info.id info.ip "写入配置失败")
            else (read_device_config env info.ip info.user info.pw
                >>= check_read_back env info action detail original replaced))
          w).0
        ≡ ok (config_written i ip true)
      → (written ≡ true)
        × ((saved : String) × (((read_device_config env info.ip info.user info.pw w).0
                ≡ ok (some saved))
              × (validate_config_content env original saved ≡ none)))
  unfolding pure
  written-ok false w i ip h = ground arith
  written-ok true w i ip h =
      let (o, (eo, ho)) = bind-steps (read_device_config env info.ip info.user info.pw) _ w _ h in
      let (saved, (es, good)) = read_back-ok o _ i ip ho in (refl, (saved, (eo ∙ ap ok es, good)))

  checked-ok :
      (o : Option String) (w : World) (i : ℕ) (ip : String)
      → (write_checked env info action detail original replaced o w).0
        ≡ ok (config_written i ip true)
      → (o ≡ none) × Confirmed env info original replaced w
  unfolding write_checked pure
  checked-ok (some e) w i ip h = ground arith
  checked-ok none w i ip h =
      let (written, (ew, hw)) =
        bind-steps (write_device_config env info.ip info.user info.pw replaced) _ w _ h in
      let (said, read) = written-ok written _ i ip hw in (refl, (ew ∙ ap ok said, read))

  -- A task that reports a changed configuration as written has checked the new configuration against
  -- the original, and the check passed; the board has accepted the new configuration; and what the
  -- task read from the board right after that write passes the check too.
  pub write_preview-Confirmed :
      (id i : ℕ) (ip : String) (w : World)
      → (write_preview env info action detail (config_preview id original replaced) w).0
        ≡ ok (config_written i ip true)
      → (validate_config_content env original replaced ≡ none)
        × Confirmed env info original replaced w
  unfolding write_preview pure
  write_preview-Confirmed id i ip w h = elim (Bool-cases (original == replaced)) [
    | inl same ↦ let h' = rw (same) at h in ground arith
    | inr other ↦ checked-ok _ w i ip (rw (other) at h)
  ]
