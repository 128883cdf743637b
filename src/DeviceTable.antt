-- ===== src/DeviceTable.antt =====
-- The queries and updates of the table devices that the handlers share, and the values that they
-- read of a row with their defaults.
pub mod Effects
use lvyou_smsweb.Db.{Db, Device}
use lvyou_smsweb.Prelude.{
  List, strip, ℕ, or_text, String, Option, Bool, filter, ◌∷◌, any, find, if◌then◌else◌, ◌==◌, [],
  number_comparable, ◌||◌, true, text_comparable, not, ◌&&◌, suc, some, false, none,
}
use lvyou_smsweb.Json.{ℤ, pos}
use lvyou_smsweb.Sessions.{or_zero}
use lvyou_smsweb.World.{Env, World, Exec, Result, err, other, ok}

-- `db.query(Device).filter(Device.id == devid).first()`
abbrev pub select_device : ℕ → Db → Db × Option Device
select_device devid db = (db, find (λ d. d.id == devid) db.devices)

-- `Device.id.in_(ids)`
abbrev pub is_listed : List ℕ → Device → Bool
is_listed ids d = any (λ i. d.id == i) ids

-- `db.query(Device).filter(Device.id.in_(ids)).all()`
abbrev pub select_listed : List ℕ → Db → Db × List Device
select_listed ids db = (db, filter (is_listed ids) db.devices)

abbrev pub map_row : ℕ → (Device → Device) → List Device → List Device
map_row devid f [] = []
map_row devid f (d ∷ ds) = (if d.id == devid then f d else d) ∷ map_row devid f ds

-- The row of an id with new values, as a commit writes it.
abbrev pub update_device : ℕ → (Device → Device) → Db → Db × Unit {0}
update_device devid f db = (record db { devices = map_row devid f db.devices }, tt)

-- `(device.user or DEFAULTUSER).strip()`, and of the password.
unfoldable pub user_of : Device → String
unfolding strip
user_of d = strip (or_text d.user "admin")

unfoldable pub passwd_of : Device → String
unfolding strip
passwd_of d = strip (or_text d.passwd "admin")

-- `_device_conn_info`
pub record ConnInfo : Type 0 where
  pub id : ℕ
  pub ip : String
  pub alias : String
  pub grp : String
  pub user : String
  pub pw : String

unfoldable pub device_conn_info : Device → ConnInfo
unfolding user_of passwd_of
device_conn_info d = record {
  id = d.id;
  ip = d.ip;
  alias = or_text d.alias "";
  grp = or_text d.grp "auto";
  user = user_of d;
  pw = passwd_of d;
}

-- `_device_to_dict`
pub record SimDict : Type 0 where
  pub number : String
  pub operator : String
  pub signal : ℤ
  pub label : String

pub record DeviceDict : Type 0 where
  pub id : ℕ
  pub dev_id : String
  pub alias : String
  pub grp : String
  pub ip : String
  pub mac : String
  pub status : String
  pub last_seen : ℕ
  pub created : String
  pub firmware_version : String
  pub sim1 : SimDict
  pub sim2 : SimDict

abbrev pub or_zero_int : Option ℤ → ℤ
or_zero_int none = pos 0
or_zero_int (some z) = z

abbrev pub sim_dict : Option String → Option String → Option ℤ → SimDict
sim_dict number operator signal = record {
  number = or_text number "";
  operator = or_text operator "";
  signal = or_zero_int signal;
  label = or_text number (or_text operator "SIM");
}

unfoldable pub device_to_dict : Device → DeviceDict
device_to_dict d = record {
  id = d.id;
  dev_id = or_text d.dev_id "";
  alias = or_text d.alias "";
  grp = or_text d.grp "auto";
  ip = d.ip;
  mac = or_text d.mac "";
  status = or_text d.status "unknown";
  last_seen = or_zero d.last_seen;
  created = or_text d.created "";
  firmware_version = or_text d.firmware_version "";
  sim1 = sim_dict d.sim1number d.sim1operator d.sim1signal;
  sim2 = sim_dict d.sim2number d.sim2operator d.sim2signal;
}

-- Two columns that may be NULL hold the same value.
abbrev pub same_value : Option String → Option String → Bool
same_value (some a) (some b) = a == b
same_value _ _ = false

-- Two rows that the constraints of the table do not allow together.
abbrev pub clash : Device → Device → Bool
clash d e = d.id == e.id || d.ip == e.ip || same_value d.dev_id e.dev_id || same_value d.mac e.mac

-- The constraints: PRIMARY KEY(id), UNIQUE(ip), UNIQUE(devId), UNIQUE(mac).
unfoldable pub satisfies : List Device → Bool
satisfies [] = true
satisfies (d ∷ ds) = not (any (clash d) ds) && satisfies ds

module _ (env : Env) where
  -- The statements of a flush or a commit: they raise if the rows would break a constraint.
  abbrev pub checked : Option String → Bool → (World → World) → World → Result (Unit {0}) × World
  checked (some e) good write w = (err (other e), w)
  checked none false write w = (err (other "UNIQUE constraint failed"), w)
  checked none true write w = (ok tt, write w)

  -- Sends the changes to the database, where nobody else sees them before the commit.
  unfoldable pub flush : (List Device → List Device) → Exec (Unit {0})
  unfolding satisfies
  flush f w =
      checked (env.db_fails w.tick) (satisfies (f w.db.devices)) (λ v. v)
        (record w { tick = suc w.tick })

  unfoldable pub commit : (List Device → List Device) → Exec (Unit {0})
  unfolding satisfies
  commit f w =
      checked (env.db_fails w.tick) (satisfies (f w.db.devices))
        (λ v. record v { db = record v.db { devices = f v.db.devices } })
        (record w { tick = suc w.tick })
