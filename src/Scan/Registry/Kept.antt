-- ===== src/Scan/Registry/Kept.antt =====
-- Which scans the polls and the sweep leave in the registry.
use lvyou_smsweb.Scan.Routes.{scanstatus, cleanup_round}
use lvyou_smsweb.World.Preserves.{Preserves, preserves_rules}
use lvyou_smsweb.World.{transacted, transact, nowts}
use lvyou_smsweb.DeviceTable.{commit, checked, satisfies}
use lvyou_smsweb.Db.{Db, Device}
use lvyou_smsweb.Prelude.{none, true, List, Option, Bool}
use lvyou_smsweb.RateLimit.{cleanup_rate_events}
use lvyou_smsweb.Sessions.{cleanup_expired_tokens}
use lvyou_smsweb.Devices.Rows.{cleanup_stale_devices}
use lvyou_smsweb.Scan.Registry.{
  is_expired, lookup_scan, cleanup_old_scans, drop_expired, get_scan, Registry, to_dict,
}
use lvyou_smsweb.Prelude.{◌∷◌, [], ℕ, String, ◌≡◌, some, false, arith, refl}
use lvyou_smsweb.World.{put_scans, time, ask, ScanState, ◌>>=◌, or_raise, Env, World, ok}

drop_expired-lookup :
    (ttl now : ℕ) (id : String) (reg : Registry) (st : ScanState)
    → lookup_scan id reg ≡ some st
    → is_expired ttl now st ≡ false
    → lookup_scan id (drop_expired ttl now reg) ≡ some st
unfolding lookup_scan drop_expired
drop_expired-lookup ttl now id [] st h k = ground arith
drop_expired-lookup ttl now id ((key, old) ∷ rest) st h k =
    let ih = drop_expired-lookup ttl now id rest st in ground arith

-- The registry holds `st` as the state of the scan.
record HasScan (id : String) (st : ScanState) (w : World) : Type 0 where
  at : lookup_scan id w.scans ≡ some st

module _ (env : Env) (id : String) (st : ScanState) (running : st.finished_at ≡ 0) where
  abbrev P : World → Type 0
  P = HasScan id st

  ask-Kept : {A : Type 0} (f : ℕ → A) → Preserves P (ask f)
  unfolding ask
  ask-Kept f = record { holds = λ w h. record { at = h.at } }

  nowts-Kept : Preserves P (nowts env)
  unfolding nowts
  nowts-Kept = ask-Kept _

  transacted-Kept :
      {A : Type 0} (o : Option String) (p : Db × A) (w : World) → P w → P (transacted o p w).1
  transacted-Kept none p w h = record { at = h.at }
  transacted-Kept (some e) p w h = h

  transact-Kept : {A : Type 0} (f : Db → Db × A) → Preserves P (transact env f)
  unfolding transact
  transact-Kept f = record {
    holds = λ w h. transacted-Kept (env.db_fails w.tick) (f w.db) _ (record { at = h.at });
  }

  checked-Kept :
      (o : Option String) (good : Bool) (f : List Device → List Device) (w : World)
      → P w
      → P (checked env o good (λ v. record v { db = record v.db { devices = f v.db.devices } }) w).1
  checked-Kept (some e) good f w h = h
  checked-Kept none false f w h = h
  checked-Kept none true f w h = record { at = h.at }

  commit-Kept : (f : List Device → List Device) → Preserves P (commit env f)
  unfolding commit
  commit-Kept f = record {
    holds = λ w h.
        checked-Kept (env.db_fails w.tick) (satisfies (f w.db.devices)) f _ (record { at = h.at });
  }

  cleanup-Kept : Preserves P (cleanup_old_scans env)
  unfolding cleanup_old_scans put_scans time ask ◌>>=◌
  cleanup-Kept = record {
    holds = λ w h. record {
      at =
          drop_expired-lookup env.config.scan_ttl (env.micros w.tick) id w.scans st h.at
            (ground arith);
    };
  }

  ruleset kept_rules = (preserves_rules, nowts-Kept, transact-Kept, commit-Kept, cleanup-Kept)

  status-Kept : (other : String) → Preserves P (scanstatus env other)
  unfolding scanstatus get_scan
  status-Kept other = search kept_rules depth 10

  tokens-Kept : Preserves P (cleanup_expired_tokens env)
  unfolding cleanup_expired_tokens
  tokens-Kept = search kept_rules

  events-Kept : (age : ℕ) → Preserves P (cleanup_rate_events env age)
  unfolding cleanup_rate_events
  events-Kept age = search kept_rules

  stale-Kept : Preserves P (cleanup_stale_devices env)
  unfolding cleanup_stale_devices
  stale-Kept = search kept_rules

  round-Kept : (max_period : ℕ) → Preserves P (cleanup_round env max_period)
  unfolding cleanup_round
  round-Kept max_period = search (kept_rules, tokens-Kept, events-Kept, stale-Kept) depth 10

-- The status of a scan that has not finished is answered, whatever the time, and no poll, of this
-- scan or of another one, and no round of the sweep takes its state out of the registry or changes
-- it.
pub running_is_reported :
    (env : Env) (id : String) (w : World) (st : ScanState)
    → lookup_scan id w.scans ≡ some st
    → st.finished_at ≡ 0
    → ((scanstatus env id w).0 ≡ ok (to_dict st))
      × (((other : String) → lookup_scan id (scanstatus env other w).1.scans ≡ some st)
          × ((max_period : ℕ) → lookup_scan id (cleanup_round env max_period w).1.scans ≡ some st))
unfolding scanstatus cleanup_old_scans get_scan put_scans time ask ◌>>=◌ or_raise
running_is_reported env id w st h k = (
  rw (drop_expired-lookup env.config.scan_ttl (env.micros w.tick) id w.scans st h (ground arith))
      refl,
  (
    λ other. ((status-Kept env id st k other).holds w (record { at = h })).at,
    λ max_period. ((round-Kept env id st k max_period).holds w (record { at = h })).at,
  ),
)
