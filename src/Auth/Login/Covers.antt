-- ===== src/Auth/Login/Covers.antt =====
-- The rows of an address in the table of the rate limiter, and what `api_login` does to them.
use lvyou_smsweb.World.{Env, World, audit, nowts, bm_login_failure, ask, transact, Entry}
use lvyou_smsweb.Db.{Db, RateEvent}
use lvyou_smsweb.RateLimit.{
  RateLimiter, rate_add, check_only, insert_event, is_row, cleanup_rate_events, allow, rate_count,
  reset, rate_reset, prune_and_count, delete_rows,
}
use lvyou_smsweb.Prelude.{
  String, ℕ, ◌/◌, count, ◌≡◌, List, none, ◌≤◌, ◌+◌, ◌≢◌, leb, arith, count-filter_imp, not, ◌&&◌,
  ltb, ◌-◌, Bool, Option, true, eq_iff, filter, some,
}
use lvyou_smsweb.RateLimit.Window.Bound.{seconds, is_since, check_only_lem, pruned, sweep_lem}
use lvyou_smsweb.World.Preserves.{Preserves, preserves_rules}
use lvyou_smsweb.Auth.Login.{reject_login, gate_login, try_login, accept_login}
use lvyou_smsweb.Sessions.{issue_token, cleanup_expired_tokens, insert_token}
use lvyou_smsweb.Auth.Http.{check_login_credentials, compare_value, compare_digest}
use lvyou_smsweb.RateLimit.{record_event}

-- The limiter of addresses, the limiter of names, and the address.
module _ (env : Env) (l lu : RateLimiter) (key : String) where
  abbrev pub window : ℕ
  window = l.period / 1000000

  abbrev pub since : ℕ → Db → ℕ
  since c db = count (is_since l.scope key c) db.rate_events

  -- From `now - window` on, the table holds at least as many rows as the history has entries, and
  -- the clock is past `start`.
  pub record Covers (start : ℕ) (log : List ℕ) (w : World) : Type 0 where
    pub rows : (c : ℕ) → seconds env w.tick ≤ c + window → count (leb c) log ≤ since c w.db
    pub begun : start ≤ seconds env w.tick

  module _ (up : (n : ℕ) → env.db_fails n ≡ none)
      (forward : (i j : ℕ) → i ≤ j → env.micros i ≤ env.micros j) (apart : lu.scope ≢ l.scope)
      (start : ℕ) where
    pub passed : (i j : ℕ) → i ≤ j → env.micros i / 1000000 ≤ env.micros j / 1000000
    passed i j h = omega (arith, forward i j h)

    module _ (log : List ℕ) where
      abbrev P : World → Type 0
      P = Covers start log

      -- A later world whose table has no fewer rows of the window.
      moved :
          (w w' : World)
          → w.tick ≤ w'.tick
          → ((c : ℕ) → seconds env w.tick ≤ c + window → since c w.db ≤ since c w'.db)
          → P w
          → P w'
      moved w w' le more h = record {
        rows = λ c p. omega (
          arith,
          passed w.tick w'.tick le,
          more c (omega (arith, passed w.tick w'.tick le, p)),
          h.rows c (omega (arith, passed w.tick w'.tick le, p)),
        );
        begun = omega (arith, passed w.tick w'.tick le, h.begun);
      }

      ask-Kept : {A : Type 0} (f : ℕ → A) → Preserves P (ask f)
      unfolding ask
      ask-Kept f = record { holds = λ w h. moved w _ (omega arith) (λ c p. omega arith) h }

      nowts-Kept : Preserves P (nowts env)
      unfolding nowts
      nowts-Kept = ask-Kept _

      pub audit-Kept : (e : Entry) → Preserves P (audit e)
      unfolding audit
      audit-Kept e = record { holds = λ w h. moved w _ (omega arith) (λ c p. omega arith) h }

      pub failure-Kept : (r : String) → Preserves P (bm_login_failure r)
      unfolding bm_login_failure
      failure-Kept r = record { holds = λ w h. moved w _ (omega arith) (λ c p. omega arith) h }

      transact-Kept :
          {A : Type 0} (f : Db → Db × A)
          → ((db : Db) (c : ℕ) → since c db ≤ since c (f db).0)
          → Preserves P (transact env f)
      unfolding transact
      transact-Kept f more = record {
        holds = λ w h. rw (up w.tick) (moved w _ (omega arith) (λ c p. more w.db c) h);
      }

      rate_add-Kept : (scope k : String) → Preserves P (rate_add env scope k)
      unfolding rate_add
      rate_add-Kept scope k =
          search (preserves_rules, nowts-Kept, transact-Kept, inserting) depth 10
        where
          inserting : (e : RateEvent) (db : Db) (c : ℕ) → since c db ≤ since c (insert_event e db).0
          inserting e db c = ground arith

      pub check-Kept : (k : String) → Preserves P (check_only env l k)
      check-Kept k = record {
        holds = λ w h. rw (check_only_lem env up l k w) (
            moved w (pruned env l k w) (omega arith)
              (λ c p. omega (
                arith,
                count-filter_imp (is_since l.scope key c)
                    (λ e. not (is_row l.scope k e && ltb e.ts (seconds env w.tick - window)))
                    w.db.rate_events (λ e q. ground arith),
              ))
              h);
      }

      -- A deletion of rows that are not of the key, or older than the window.
      filtered :
          (q : RateEvent → Bool) (es : List RateEvent) (c : ℕ)
          → ((e : RateEvent) → is_since l.scope key c e ≡ true → q e ≡ true)
          → count (is_since l.scope key c) es ≤ count (is_since l.scope key c) (filter q es)
      filtered q es c keep = omega (arith, count-filter_imp (is_since l.scope key c) q es keep)

      count_other-Kept :
          (l' : RateLimiter) (k : String)
          → l'.scope ≢ l.scope
          → Preserves P (rate_count env l'.scope k l'.period)
      unfolding rate_count
      count_other-Kept l' k ne =
          search (preserves_rules, nowts-Kept, transact-Kept, pruning) depth 10
        where
          pruning :
              (cutoff : ℕ) (db : Db) (c : ℕ)
              → since c db ≤ since c (prune_and_count l'.scope k cutoff db).0
          pruning cutoff db c =
              filtered _ db.rate_events c
                (λ e q. ground (arith, eq_iff e.scope l'.scope, eq_iff e.scope l.scope))

      pub check_other-Kept :
          (l' : RateLimiter) (k : String) → l'.scope ≢ l.scope → Preserves P (check_only env l' k)
      unfolding check_only
      check_other-Kept l' k ne = search (preserves_rules, count_other-Kept)

      pub allow_other-Kept :
          (l' : RateLimiter) (k : String) → l'.scope ≢ l.scope → Preserves P (allow env l' k)
      unfolding allow
      allow_other-Kept l' k ne = search (preserves_rules, count_other-Kept, rate_add-Kept)

      pub reset_other-Kept : (k : String) → Preserves P (reset env lu k)
      unfolding reset rate_reset
      reset_other-Kept k = search (preserves_rules, transact-Kept, deleting)
        where
          deleting : (db : Db) (c : ℕ) → since c db ≤ since c (delete_rows lu.scope k db).0
          deleting db c =
              filtered _ db.rate_events c
                (λ e q. ground (arith, eq_iff e.scope lu.scope, eq_iff e.scope l.scope))

      pub sweep-Kept : (age : ℕ) → window ≤ age → Preserves P (cleanup_rate_events env age)
      sweep-Kept age le = record {
        holds = λ w h. rw (sweep_lem env up age w) (
            moved w _ (omega arith) (λ c p. filtered _ w.db.rate_events c (λ e q. ground arith)) h);
      }

      pub issue_token-Kept : (username : String) → Preserves P (issue_token env username)
      unfolding issue_token cleanup_expired_tokens insert_token
      issue_token-Kept username = search (preserves_rules, nowts-Kept, ask-Kept, tokens) depth 12
        where
          tokens :
              {A : Type 0} (f : Db → Db × A)
              → ((db : Db) → (f db).0.rate_events ≡ db.rate_events)
              → Preserves P (transact env f)
          tokens f same = transact-Kept f (λ db c. rw (same db) (omega arith))

      pub credentials-Kept :
          (username : String) (password : Option String)
          → Preserves P (check_login_credentials env username password)
      unfolding check_login_credentials compare_value compare_digest
      credentials-Kept username none = search preserves_rules
      credentials-Kept username (some p) = search preserves_rules

      pub record-Kept : (l' : RateLimiter) (k : String) → Preserves P (record_event env l' k)
      unfolding record_event
      record-Kept l' k = rate_add-Kept l'.scope k

      pub ruleset login_rules = (
        preserves_rules, audit-Kept, failure-Kept, check-Kept, check_other-Kept, reset_other-Kept,
        issue_token-Kept, credentials-Kept, record-Kept,
      )

      pub gate-Kept : (username ip : String) → Preserves P (gate_login env l lu username ip)
      unfolding gate_login
      gate-Kept username ip = search login_rules depth 12

      reject-Kept : (username ip : String) → Preserves P (reject_login env l lu username ip)
      unfolding reject_login
      reject-Kept username ip = search login_rules depth 12

      accept-Kept : (username ip : String) → Preserves P (accept_login env l lu username ip)
      unfolding accept_login
      accept-Kept username ip = search login_rules depth 12

      pub try-Kept :
          (username : String) (password : Option String) (ip : String)
          → Preserves P (try_login env l lu username password ip)
      unfolding try_login
      try-Kept username password ip = search (login_rules, gate-Kept, reject-Kept, accept-Kept)
