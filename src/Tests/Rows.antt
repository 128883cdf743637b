-- ===== src/Tests/Rows.antt =====
-- A board that is stored, and the answer on the state of the server.
use lvyou_smsweb.World.{Env, World}
use lvyou_smsweb.Tests.Sample.{env, world, db}
use lvyou_smsweb.Db.{Device}
use lvyou_smsweb.Devices.Upsert.{upsertdevice}
use lvyou_smsweb.Devices.Upsert.Ids.{ids_in, Extends, upsertdevice-Extends}
use lvyou_smsweb.Auth.Health.{health, IsHonest, health-IsHonest}
use lvyou_smsweb.Prelude.{ℕ, String, some, none, [], ◌∷◌}

abbrev named : ℕ → String → Device
named n address = record {
  id = n;
  dev_id = none;
  grp = none;
  ip = address;
  mac = none;
  user = none;
  passwd = none;
  status = none;
  last_seen = none;
  sim1number = none;
  sim1operator = none;
  sim1signal = none;
  sim2number = none;
  sim2operator = none;
  sim2signal = none;
  token = none;
  firmware_version = none;
  alias = none;
  created = none;
}

abbrev two_boards : World
two_boards = record world {
  db = record db { devices = named 1 "192.168.1.7" ∷ named 2 "192.168.1.8" ∷ [] };
}

upsertdevice-Extends_example :
    Extends
      (1 ∷ 2 ∷ [])
      (ids_in (upsertdevice env "192.168.1.8" "" "admin" "admin" none two_boards).1.db.devices)
upsertdevice-Extends_example =
    upsertdevice-Extends env "192.168.1.8" "" "admin" "admin" none two_boards

-- The database fails at each question.
abbrev locked : Env
locked = record env { db_fails = λ n. some "database is locked" }

health-IsHonest_example :
    IsHonest locked two_boards (health locked (λ e. "OperationalError") two_boards)
health-IsHonest_example = health-IsHonest locked (λ e. "OperationalError") two_boards
