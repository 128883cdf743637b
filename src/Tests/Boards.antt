-- ===== src/Tests/Boards.antt =====
-- Boards that are probed and written, rows that are deleted, and scans that end.
use lvyou_smsweb.Json.Fields.{end, field}
use lvyou_smsweb.Boards.Tasks.{write_preview, write_checked, check_read_back, check_saved}
use lvyou_smsweb.World.{
  Env, World, ok, transact, ◌>>=◌, pure, or_raise, audit, send, time, ask, gets, raise, try_except,
}
use lvyou_smsweb.Prelude.{
  ℕ, length, String, ◌∷◌, some, ◌≡◌, true, ◌+◌, none, [], arith, refl, strip, split_at, inl,
}
use lvyou_smsweb.Devices.Rows.{api_batch_delete, api_set_alias, api_set_group, deletedevice}
use lvyou_smsweb.Scan.Worker.Finish.{Ends, run_scan-Ends}
use lvyou_smsweb.Json.{Json, Fields, num, obj, bool, pos, str}
use lvyou_smsweb.RateLimit.{RateLimiter, allow}
use lvyou_smsweb.DeviceTable.{ConnInfo, commit, satisfies}
use lvyou_smsweb.Tests.Sample.{env, world, db}
use lvyou_smsweb.Db.{Device}
use lvyou_smsweb.Scan.Worker.{run_scan}
use lvyou_smsweb.RateLimit.Outage.{allow-open}
use lvyou_smsweb.Client.Data.{write_device_config, read_device_config, query_board, json_of}
use lvyou_smsweb.Devices.Rows.Deletion.{api_batch_delete-exact}
use lvyou_smsweb.Boards.Content.{validate_config_content, config_main_json, before_separator}
use lvyou_smsweb.Client.Patterns.{is_in}
use lvyou_smsweb.Security.Allow.{
  ensure_device_ip_allowed, is_device_ip_allowed, check_parsed, check_address, local_ipv4_networks,
  set_nets, parse_addr_show, is_internal, is_attached,
}
use lvyou_smsweb.Security.Address.{ip_address, parse_v4}
use lvyou_smsweb.Boards.Tasks.Confirmed.{Confirmed, write_preview-Confirmed}
use lvyou_smsweb.Devices.Batch.Refused.{IsRefused, bad_size-IsRefused}
use lvyou_smsweb.Devices.Batch.{
  api_batch_wifi_preview, api_batch_wifi, api_batch_sim, api_batch_forward,
  api_enhanced_batch_forward,
}
use lvyou_smsweb.Devices.Forms.{ForwardReq}
use lvyou_smsweb.Devices.Rows.Isolation.{row_of, other_rows_kept}

abbrev main_config : Fields
main_config = field "wps" (num (pos 1)) (field "uip" (num (pos 2)) end)

-- A board that accepts every write and answers every other request with the same configuration.
abbrev profile : Json
profile = obj (
    field "success" (bool true)
      (field "data" (obj (field "PROPF" (str "{\"uip\":2,\"wps\":1}") end)) end))

abbrev lab : Env
lab = record env {
  reply = λ n c.
      ok (record { status_code = 200; www_authenticate = ""; text = ""; body = some profile });
  loads = λ s. some (obj main_config);
}

abbrev board : ConnInfo
board = record {
  id = 1;
  ip = "192.168.1.7";
  alias = "";
  grp = "auto";
  user = "admin";
  pw = "admin";
}

write_preview-Confirmed_example :
    (validate_config_content lab "{\"uip\":1,\"wps\":1}" "{\"uip\":2,\"wps\":1}" ≡ none)
    × Confirmed lab board "{\"uip\":1,\"wps\":1}" "{\"uip\":2,\"wps\":1}" world
unfolding write_preview write_checked check_read_back check_saved write_device_config
    read_device_config query_board json_of or_raise validate_config_content config_main_json
    before_separator is_in strip ensure_device_ip_allowed is_device_ip_allowed check_parsed
    ip_address parse_v4 split_at check_address local_ipv4_networks set_nets parse_addr_show
    is_internal is_attached audit send time ask gets pure raise try_except ◌>>=◌
write_preview-Confirmed_example =
    write_preview-Confirmed lab board "config_write" "" "{\"uip\":1,\"wps\":1}"
      "{\"uip\":2,\"wps\":1}" 1 1 "192.168.1.7" world refl

abbrev row : ℕ → String → Device
row id ip = record {
  id = id;
  dev_id = none;
  grp = some "auto";
  ip = ip;
  mac = none;
  user = some "admin";
  passwd = some "admin";
  status = some "online";
  last_seen = some 0;
  sim1number = some "";
  sim1operator = some "";
  sim1signal = some (pos 0);
  sim2number = some "";
  sim2operator = some "";
  sim2signal = some (pos 0);
  token = some "";
  firmware_version = some "";
  alias = some "";
  created = some "";
}

abbrev stocked : World
stocked = record world {
  db = record db { devices = row 1 "192.168.1.7" ∷ row 2 "192.168.1.8" ∷ [] };
}

abbrev emptied : World
emptied = (api_batch_delete env (2 ∷ 5 ∷ []) stocked).1

api_batch_delete-exact_example :
    (emptied.db.devices ≡ row 1 "192.168.1.7" ∷ []) × (1 + length emptied.db.devices ≡ 2)
unfolding api_batch_delete commit satisfies transact ◌>>=◌ pure
api_batch_delete-exact_example = api_batch_delete-exact env 2 (5 ∷ []) 1 stocked emptied refl

run_scan-Ends_example : Ends env "5ca0" (run_scan env "5ca0" "192.168.1.0/30" none "u" "p" world)
run_scan-Ends_example = run_scan-Ends env "5ca0" "192.168.1.0/30" none "u" "p" world

abbrev broken : Env
broken = record env { db_fails = λ n. some "disk I/O error" }

abbrev dial_limiter : RateLimiter
dial_limiter = record { scope = "dial"; max_calls = 5; period = 60000000 }

allow-open_example :
    ((allow broken dial_limiter "dial:1" world).0 ≡ ok true)
    × ((allow broken dial_limiter "dial:1" world).1.db ≡ world.db)
allow-open_example =
    allow-open broken dial_limiter "dial:1" world (λ n. "disk I/O error") (λ n. refl) (omega arith)

bad_size-IsRefused_example :
    ((ssid : String) → IsRefused (api_batch_wifi_preview env [] ssid) stocked)
    × (((ssid pwd : String) → IsRefused (api_batch_wifi env [] ssid pwd) stocked)
        × (((sim1 sim2 : String) → IsRefused (api_batch_sim env [] sim1 sim2) stocked)
            × (((url notify : String) → IsRefused (api_batch_forward env [] url notify) stocked)
                × ((req : ForwardReq)
                    → IsRefused
                        (api_enhanced_batch_forward env (record req { device_ids = [] }))
                        stocked))))
bad_size-IsRefused_example = bad_size-IsRefused env [] stocked (inl refl)

other_rows_kept_example :
    (row_of 1 (api_set_alias env 2 "hall" stocked).1.db.devices ≡ some (row 1 "192.168.1.7"))
    × ((row_of 1 (api_set_group env 2 "hall" stocked).1.db.devices ≡ some (row 1 "192.168.1.7"))
        × (row_of 1 (deletedevice env 2 stocked).1.db.devices ≡ some (row 1 "192.168.1.7")))
other_rows_kept_example = other_rows_kept env 1 2 "hall" stocked (λ p. ground (arith, p))
