-- ===== src/Db.antt =====
-- backend/db.py: the rows of the three tables and the database that both server processes share.
use lvyou_smsweb.Prelude.{ℕ, String, Option, List}
use lvyou_smsweb.Json.{ℤ}

-- `class Device`. A column that may hold NULL is an option.
pub record Device : Type 0 where
  pub id : ℕ
  pub dev_id : Option String
  pub grp : Option String
  pub ip : String
  pub mac : Option String
  pub user : Option String
  pub passwd : Option String
  pub status : Option String
  pub last_seen : Option ℕ
  pub sim1number : Option String
  pub sim1operator : Option String
  pub sim1signal : Option ℤ
  pub sim2number : Option String
  pub sim2operator : Option String
  pub sim2signal : Option ℤ
  pub token : Option String
  pub firmware_version : Option String
  pub alias : Option String
  pub created : Option String

-- `class AuthToken`
pub record AuthToken : Type 0 where
  pub token : String
  pub username : Option String
  pub exp : Option ℕ

-- `class RateEvent`, without its row number, which nothing reads.
pub record RateEvent : Type 0 where
  pub scope : String
  pub rkey : String
  pub ts : ℕ

pub record Db : Type 0 where
  pub devices : List Device
  pub auth_tokens : List AuthToken
  pub rate_events : List RateEvent
