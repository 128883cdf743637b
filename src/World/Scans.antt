-- ===== src/World/Scans.antt =====
-- The state of a scan: `ScanState` of backend/routes/scan.py.
use lvyou_smsweb.Prelude.{String, ℕ, Option, List}

-- An entry of `results`: a board that was found, and once it is stored its row.
pub record ScanItem : Type 0 where
  pub ip : String
  pub mac : String
  pub dev_id : String
  pub grp : Option String

-- `finished_at` is in microseconds, 0 while the scan runs.
pub record ScanState : Type 0 where
  pub status : String
  pub progress : String
  pub results : List ScanItem
  pub found : ℕ
  pub scanned : ℕ
  pub total_ips : ℕ
  pub cidr : String
  pub finished_at : ℕ
