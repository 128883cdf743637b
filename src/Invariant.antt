-- ===== src/Invariant.antt =====
-- The invariant of the whole backend, with one rule for each primitive action: which addresses it
-- has contacted, and whose the sessions are.
use lvyou_smsweb.Db.{Db, AuthToken, Device}
use lvyou_smsweb.World.{
  Env, put_scans, World, ask, nowts, time, audit, bm_login_failure, transact, Exec, send,
  transacted, ScanState, Network, Entry, Call, ◌>>=◌,
}
use lvyou_smsweb.World.Preserves.{preserves_rules, Preserves}
use lvyou_smsweb.Prelude.{
  ℕ, Option, String, List, ◌≡◌, suc, ◌/◌, Bool, some, true, All, none, false, All-filter,
}
use lvyou_smsweb.Security.Allow.{set_nets, local_ipv4_networks, ensure_device_ip_allowed}
use lvyou_smsweb.DeviceTable.{flush, commit, satisfies, checked}
use lvyou_smsweb.Sessions.{delete_where, replace_token, delete_expired}
use lvyou_smsweb.Security.Allow.Layers.{IsInternal, ensure-bind}
use lvyou_smsweb.Sessions.Unique.{unique-replace, unique-filter, has_unique_tokens}

-- Every request so far went to an internal address.
abbrev pub Confined : Env → List Call → Type 0
Confined env sent = All (λ c. IsInternal env c.ip) sent

-- Every session belongs to the configured user, and no two have the same token.
abbrev pub Owned : Env → Db → Type 0
Owned env db =
    All (λ row. row.username ≡ some env.config.ui_user) db.auth_tokens
    × (has_unique_tokens db.auth_tokens ≡ true)

-- The statements on sessions keep that, if a new session is one of the user.
module _ (env : Env) where
  pub delete_expired-Owned :
      (now : ℕ) (db : Db) → Owned env db → Owned env (delete_expired now db).0
  delete_expired-Owned now db h =
      (All-filter _ _ db.auth_tokens h.0, unique-filter _ db.auth_tokens h.1)

  pub delete_where-Owned :
      (token : String) (db : Db) → Owned env db → Owned env (delete_where token db).0
  delete_where-Owned token db h =
      (All-filter _ _ db.auth_tokens h.0, unique-filter _ db.auth_tokens h.1)

  pub replace_token-Owned :
      (row : AuthToken)
      → row.username ≡ some env.config.ui_user
      → (db : Db) → Owned env db
      → Owned env (replace_token row db).0
  replace_token-Owned row mine db h =
      ((mine, All-filter _ _ db.auth_tokens h.0), unique-replace row db.auth_tokens h.1)

-- `H` chooses what is followed: the sessions where `H` holds, the addresses where it does not.
pub record Good (env : Env) (H : Type 0) (w : World) : Type 0 where
  pub confined : ¬ H → Confined env w.sent
  pub owned : H → Owned env w.db

module _ (env : Env) (H : Type 0) where
  abbrev pub Safe : {A : Type 0} → Exec A → Type 0
  Safe m = Preserves (Good env H) m

  transacted-Good :
      {A : Type 0} (o : Option String) (p : Db × A) (w : World)
      → Good env H w
      → (Owned env w.db → Owned env p.0)
      → Good env H (transacted o p w).1
  transacted-Good none p w h k = record { confined = h.confined; owned = λ x. k (h.owned x) }
  transacted-Good (some e) p w h k = h

  pub transact-Safe :
      {A : Type 0} (f : Db → Db × A)
      → ((db : Db) → Owned env db → Owned env (f db).0)
      → Safe (transact env f)
  unfolding transact
  transact-Safe f hf = record {
    holds = λ w h.
        transacted-Good (env.db_fails w.tick) (f w.db) (record w { tick = suc w.tick })
          (record { confined = h.confined; owned = h.owned }) (hf w.db);
  }

  pub ask-Safe : {A : Type 0} (f : ℕ → A) → Safe (ask f)
  unfolding ask
  ask-Safe f = record { holds = λ w h. record { confined = h.confined; owned = h.owned } }

  pub nowts-Safe : Safe (nowts env)
  unfolding nowts
  nowts-Safe = ask-Safe (λ n. env.micros n / 1000000)

  pub time-Safe : Safe (time env)
  unfolding time
  time-Safe = ask-Safe env.micros

  pub audit-Safe : (e : Entry) → Safe (audit e)
  unfolding audit
  audit-Safe e = record { holds = λ w h. record { confined = h.confined; owned = h.owned } }

  pub login_failure-Safe : (r : String) → Safe (bm_login_failure r)
  unfolding bm_login_failure
  login_failure-Safe r = record { holds = λ w h. record { confined = h.confined; owned = h.owned } }

  pub put_scans-Safe :
      (f : List (String × ScanState) → List (String × ScanState)) → Safe (put_scans f)
  unfolding put_scans
  put_scans-Safe f = record { holds = λ w h. record { confined = h.confined; owned = h.owned } }

  set_nets-Safe : (entry : ℕ × List Network) → Safe (set_nets entry)
  unfolding set_nets
  set_nets-Safe entry = record { holds = λ w h. record { confined = h.confined; owned = h.owned } }

  pub send-Safe : (c : Call) → IsInternal env c.ip → Safe (send env c)
  unfolding send
  send-Safe c i = record {
    holds = λ w h. record { confined = λ n. (i, h.confined n); owned = h.owned };
  }

  checked-Good :
      (o : Option String) (good : Bool) (f : List Device → List Device) (w : World)
      → Good env H w
      → Good env H
          (checked env o good (λ v. record v { db = record v.db { devices = f v.db.devices } }) w).1
  checked-Good (some e) good f w h = h
  checked-Good none false f w h = h
  checked-Good none true f w h = record { confined = h.confined; owned = h.owned }

  pub commit-Safe : (f : List Device → List Device) → Safe (commit env f)
  unfolding commit
  commit-Safe f = record {
    holds = λ w h.
        checked-Good (env.db_fails w.tick) (satisfies (f w.db.devices)) f
          (record w { tick = suc w.tick }) (record { confined = h.confined; owned = h.owned });
  }

  flushed-Good :
      (o : Option String) (good : Bool) (w : World)
      → Good env H w
      → Good env H (checked env o good (λ v. v) w).1
  flushed-Good (some e) good w h = h
  flushed-Good none false w h = h
  flushed-Good none true w h = h

  pub flush-Safe : (f : List Device → List Device) → Safe (flush env f)
  unfolding flush
  flush-Safe f = record {
    holds = λ w h.
        flushed-Good (env.db_fails w.tick) (satisfies (f w.db.devices))
          (record w { tick = suc w.tick }) (record { confined = h.confined; owned = h.owned });
  }

pub ruleset base_rules = (
  preserves_rules, transact-Safe, ask-Safe, nowts-Safe, time-Safe, audit-Safe, login_failure-Safe,
  put_scans-Safe, commit-Safe, flush-Safe,
)

module _ (env : Env) (H : Type 0) where
  pub local_ipv4_networks-Safe : Safe env H (local_ipv4_networks env)
  unfolding local_ipv4_networks
  local_ipv4_networks-Safe = search (base_rules, set_nets-Safe) depth 12

  pub ensure-Safe :
      {A : Type 0} (ip : String) (k : Unit {0} → Exec A)
      → (IsInternal env ip → Safe env H (k tt))
      → Safe env H (ensure_device_ip_allowed env ip >>= k)
  ensure-Safe ip k h = ensure-bind env ip k local_ipv4_networks-Safe h
