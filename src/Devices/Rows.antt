-- ===== src/Devices/Rows.antt =====
-- The handlers of backend/routes/devices.py that read, change and delete single rows.
pub mod Deletion
pub mod Isolation
use Prim.Native.String.{[], ◌∷◌}
use lvyou_smsweb.Prelude.{
  [], ◌∷◌, ℕ, String, Bool, Option, ◌&&◌, like_prefix, false, strip, List, if◌then◌else◌, some,
  filter, ltb, or_else, not, or_text, ◌-◌, ◌==◌, text_length, none, number_comparable, length,
}
use lvyou_smsweb.World.{
  Env, Exec, ◌>>=◌, try_except, transact, nowts, raise, http, or_raise, pure, ◌>>◌,
}
use lvyou_smsweb.DeviceTable.{
  DeviceDict, device_to_dict, SimDict, commit, map_row, select_device, select_listed, is_listed,
}
use lvyou_smsweb.Db.{Device}
use lvyou_smsweb.Json.{Json}
use lvyou_smsweb.Client.Data.{getdevicedata, wifi_of}

pub record Detail : Type 0 where
  pub device : DeviceDict
  pub sim1 : SimDict
  pub sim2 : SimDict
  pub wifi_name : Json
  pub wifi_dbm : Json

-- `LIKE '__stale\\_%' ESCAPE '\\'`, in which a `_` that is not escaped stands for any character, and
-- in which SQLite does not tell the cases of ASCII letters apart.
abbrev pub stale_prefix : String → Bool
stale_prefix (a ∷ b ∷ rest) = like_prefix rest "stale_"
stale_prefix _ = false

-- `lastSeen < cutoff`; a comparison with NULL does not hold.
abbrev pub is_before : ℕ → Option ℕ → Bool
is_before cutoff none = false
is_before cutoff (some t) = ltb t cutoff

module _ (env : Env) where
  unfoldable pub require_device : ℕ → Exec Device
  require_device devid = do
    found ← transact env (select_device devid)
    or_raise found (http 404 "Device not found")

  -- The row with what its board says of its wireless network now.
  unfoldable pub api_device_detail : ℕ → Exec Detail
  unfolding require_device device_to_dict
  api_device_detail devid = do
    d ← require_device devid
    data_ ← getdevicedata env d.ip (or_text d.user "admin") (or_text d.passwd "admin")
    let wifi = wifi_of data_
    let payload = device_to_dict d
    pure (record {
      device = payload;
      sim1 = payload.sim1;
      sim2 = payload.sim2;
      wifi_name = wifi.wifi_name;
      wifi_dbm = wifi.wifi_dbm;
    })

  unfoldable pub api_set_alias : ℕ → String → Exec (Unit {0})
  unfolding require_device commit strip
  api_set_alias devid text =
      let alias = strip text in
      if ltb 24 (text_length alias) then raise (http 400 "alias too long") else do
        d ← require_device devid
        commit env (map_row d.id (λ row. record row { alias = some alias }))

  unfoldable pub api_set_group : ℕ → String → Exec (Unit {0})
  unfolding require_device commit strip
  api_set_group devid text = do
    d ← require_device devid
    commit env (map_row d.id (λ row. record row { grp = some (or_else (strip text) "auto") }))

  unfoldable pub deletedevice : ℕ → Exec (Unit {0})
  unfolding require_device commit
  deletedevice dev_id = do
    d ← require_device dev_id
    commit env (filter (λ row. not (row.id == d.id)))

  -- The number of rows that are deleted.
  unfoldable pub api_batch_delete : List ℕ → Exec ℕ
  unfolding commit
  api_batch_delete [] = raise (http 400 "device_ids required")
  api_batch_delete (i ∷ ids) = do
    rows ← transact env (select_listed (i ∷ ids))
    commit env (filter (λ row. not (is_listed (i ∷ ids) row)))
    pure (length rows)

  -- The rows that an address change renamed, once they are old.
  unfoldable pub is_stale : ℕ → Device → Bool
  is_stale cutoff d = stale_prefix d.ip && is_before cutoff d.last_seen

  unfoldable pub cleanup_stale_devices : Exec (Unit {0})
  unfolding commit is_stale
  cleanup_stale_devices =
      try_except
        (do
          now ← nowts env
          commit env (filter (λ d. not (is_stale (now - env.config.stale_device_ttl) d))))
        (λ _. pure tt)
