-- ===== src/Boards/Tasks/Writes.antt =====
-- What a task of backend/routes/config.py writes to a board.
use lvyou_smsweb.World.{Env, Pairs, Exec, Call, send, World}
use lvyou_smsweb.Prelude.{
  ◌∷◌, [], String, Option, none, List, ◌≡◌, All, [], some, ◌⊎◌, arith, if◌then◌else◌, ◌==◌, ℕ,
  text_comparable, refl, inl, inr, sym,
}
use lvyou_smsweb.Security.Allow.{ensure_device_ip_allowed}
use lvyou_smsweb.Client.Data.{
  mgr_post, read_device_config, write_device_config, query_board, json_of, write_call,
}
use lvyou_smsweb.Security.Allow.Layers.{ensure-Preserves, local_ipv4_networks-OnSent}
use lvyou_smsweb.World.Preserves.{sent_rules, Preserves, OnSent, OnSent-send, Preserves-bind}
use lvyou_smsweb.Boards.Content.{validate_config_content}
use lvyou_smsweb.DeviceTable.{ConnInfo}
use lvyou_smsweb.Boards.Tasks.{
  write_preview, write_checked, check_saved, check_read_back, restore, config_preview,
}

-- The configuration that a request writes, if it writes one.
unfoldable pub propf_in : Pairs → Option String
propf_in [] = none
propf_in ((key, value) ∷ rest) = if key == "propf" then some value else propf_in rest

-- A configuration may be written if the check passed it, or if it is the original one.
abbrev pub Writable : Env → String → String → String → Type 0
Writable env original replaced s =
    (s ≡ original) ⊎ ((s ≡ replaced) × (validate_config_content env original replaced ≡ none))

abbrev pub WritableCall : Env → String → String → Call → Type 0
WritableCall env original replaced c =
    (s : String) → propf_in c.form ≡ some s → Writable env original replaced s

abbrev pub OnlyWritable : Env → String → String → List Call → Type 0
OnlyWritable env original replaced sent = All (WritableCall env original replaced) sent

module _ (env : Env) (original replaced : String) where
  abbrev Kept : {A : Type 0} → Exec A → Type 0
  Kept m = Preserves (OnSent (OnlyWritable env original replaced)) m

  send-Kept : (c : Call) → WritableCall env original replaced c → Kept (send env c)
  send-Kept c h = OnSent-send (OnlyWritable env original replaced) env c (λ sent k. (h, k))

  ensure-Kept : (ip : String) → Kept (ensure_device_ip_allowed env ip)
  ensure-Kept ip =
      ensure-Preserves env ip (local_ipv4_networks-OnSent (OnlyWritable env original replaced) env)

  read_call-Writable :
      (ip a content user pw : String)
      → WritableCall env original replaced (mgr_post ip a content [] user pw)
  unfolding propf_in
  read_call-Writable ip a content user pw s h = ground arith

  read-Kept : (ip user pw : String) → Kept (read_device_config env ip user pw)
  unfolding read_device_config query_board json_of
  read-Kept ip user pw = search (sent_rules, ensure-Kept, send-Kept, read_call-Writable) depth 12

  write_call-Writable :
      (ip user pw content : String)
      → Writable env original replaced content
      → WritableCall env original replaced (write_call ip user pw content)
  unfolding propf_in
  write_call-Writable ip user pw content h s e =
      let same : content ≡ s = ground arith in rw (sym same) h

  write-Kept :
      (ip user pw content : String)
      → Writable env original replaced content
      → Kept (write_device_config env ip user pw content)
  unfolding write_device_config
  write-Kept ip user pw content h =
      search (sent_rules, ensure-Kept, send-Kept, write_call-Writable) depth 10

  module _ (info : ConnInfo) (action detail : String) where
    check_saved-Kept :
        (o : Option String) → Kept (check_saved env info action detail original replaced o)
    unfolding check_saved restore
    check_saved-Kept none = search sent_rules
    check_saved-Kept (some e) =
        Preserves-bind _ _ (write-Kept info.ip info.user info.pw original (inl refl))
          (λ _. search sent_rules)

    check_read_back-Kept :
        (o : Option String) → Kept (check_read_back env info action detail original replaced o)
    unfolding check_read_back
    check_read_back-Kept none = search sent_rules
    check_read_back-Kept (some saved) = search (sent_rules, check_saved-Kept)

    write_checked-Kept :
        (o : Option String)
        → validate_config_content env original replaced ≡ o
        → Kept (write_checked env info action detail original replaced o)
    unfolding write_checked
    write_checked-Kept none h =
        Preserves-bind _ _ (write-Kept info.ip info.user info.pw replaced (inr (refl, h)))
          (λ written. search (sent_rules, read-Kept, check_read_back-Kept))
    write_checked-Kept (some e) h = search sent_rules

  write_preview-Kept :
      (info : ConnInfo) (action detail : String) (id : ℕ)
      → Kept (write_preview env info action detail (config_preview id original replaced))
  unfolding write_preview
  write_preview-Kept info action detail id =
      search (sent_rules, write_checked-Kept info action detail _ refl)

-- Applying a preview writes nothing to a board but the new configuration, and that only if the check
-- of it against the original passes, or the original itself: if all that was written before is of
-- this kind (nothing, for instance), all that has been written after is, on every path, errors
-- included.
pub only_checked_is_written :
    (env : Env) (info : ConnInfo) (action detail original replaced : String) (id : ℕ) (w : World)
    → OnlyWritable env original replaced w.sent
    → OnlyWritable env original replaced
        (write_preview env info action detail (config_preview id original replaced) w).1.sent
only_checked_is_written env info action detail original replaced id w h =
    ((write_preview-Kept env original replaced info action detail id).holds w
      (record { at = h })).at
