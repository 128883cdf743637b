-- ===== src/RateLimit/Window/Bound.antt =====
-- How many calls of a key `RateLimiter.allow` admits in a window of its period.
use lvyou_smsweb.Prelude.{
  ℕ, ◌+◌, ◌-◌, ◌/◌, ◌≤◌, ◌<◌, ◌≡◌, refl, ◌≢◌, ◌∙◌, Bool, true, false, ◌&&◌, not, List, [], ◌∷◌,
  arith, String, leb, ltb, text_comparable, eq_iff, filter, count, count-filter_imp, count_mono,
  none, suc, if◌then◌else◌, Bool-cases, inl, inr, ◌++◌, ◌==◌, All,
}
use lvyou_smsweb.Db.{RateEvent}
use lvyou_smsweb.RateLimit.{
  RateLimiter, is_row, prune, rate_add, check_only, allow, cleanup_rate_events, prune_and_count,
  rate_count, insert_event, delete_older,
}
use lvyou_smsweb.World.{Env, World, nowts, transact, ◌>>=◌, try_except, ok}
use lvyou_smsweb.RateLimit.Window.{Op, step, admit, Fits, probe, foreign, sweep, run}

-- The rows of one key that are stamped at `c` or later.
abbrev pub is_since : String → String → ℕ → RateEvent → Bool
is_since scope key c e = is_row scope key e && leb c e.ts

module _ (l : RateLimiter) (key : String) where
  abbrev window : ℕ
  window = l.period / 1000000

  -- From `now - window` on, the table and the history hold the same stamps.
  record Counted (now : ℕ) (es : List RateEvent) (log : List ℕ) : Type 0 where
    since : (c : ℕ) → now ≤ c + window → count (is_since l.scope key c) es ≡ count (leb c) log

  abbrev Bounded : List ℕ → Type 0
  Bounded log = (t : ℕ) → count (λ u. leb t u && leb u (t + window)) log ≤ l.max_calls

  module _ {now : ℕ} (es : List RateEvent) {log : List ℕ} (h : Counted now es log) where
    Counted-prune : (k : String) → Counted now (prune l.scope k (now - window) es) log
    Counted-prune k = record {
      since =
          λ c p. count-filter_imp (is_since l.scope key c) _ es (λ e q. ground arith) ∙ h.since c p;
    }

    Counted-prune_foreign :
        (s k : String) (cutoff : ℕ) → s ≢ l.scope → Counted now (prune s k cutoff es) log
    Counted-prune_foreign s k cutoff ne = record {
      since = λ c p.
          count-filter_imp (is_since l.scope key c) _ es
            (λ e q. ground (arith, eq_iff e.scope s, eq_iff e.scope l.scope))
          ∙ h.since c p;
    }

    Counted-older :
        (age : ℕ) → window ≤ age → Counted now (filter (λ e. not (ltb e.ts (now - age))) es) log
    Counted-older age le = record {
      since =
          λ c p. count-filter_imp (is_since l.scope key c) _ es (λ e q. ground arith) ∙ h.since c p;
    }

    Counted-insert :
        (e : RateEvent) → is_row l.scope key e ≡ true → Counted now (e ∷ es) (e.ts ∷ log)
    Counted-insert e mine = record { since = λ c p. ground (arith, h.since c p) }

    Counted-insert_foreign :
        (e : RateEvent) → is_row l.scope key e ≡ false → Counted now (e ∷ es) log
    Counted-insert_foreign e other = record { since = λ c p. ground (arith, h.since c p) }

    Counted-later : (later : ℕ) → now ≤ later → Counted later es log
    Counted-later later le = record { since = λ c p. h.since c (omega arith) }

  -- What `rate_count` counts after it has pruned.
  pub count-prune :
      (cutoff : ℕ) (es : List RateEvent)
      → count (is_row l.scope key) (prune l.scope key cutoff es)
        ≡ count (is_since l.scope key cutoff) es
  count-prune cutoff [] = refl
  count-prune cutoff (e ∷ es) = ground (arith, count-prune cutoff es)

  -- An admitted call: fewer rows than the limit were counted.
  Bounded-insert :
      (now ts : ℕ) (es : List RateEvent) (log : List ℕ)
      → Counted now es log
      → Bounded log
      → count (is_row l.scope key) (prune l.scope key (now - window) es) < l.max_calls
      → now ≤ ts
      → Bounded (ts ∷ log)
  Bounded-insert now ts es log h b few le t = ground (
    arith,
    b t,
    count-prune (now - window) es,
    h.since t,
    count_mono (λ u. leb t u && leb u (t + window)) (leb t) log (λ u q. ground arith),
    count_mono (is_since l.scope key t) (is_since l.scope key (now - window)) es,
  )

module _ (env : Env) where
  abbrev pub seconds : ℕ → ℕ
  seconds n = env.micros n / 1000000

  abbrev pub pruned : RateLimiter → String → World → World
  pruned l k w = record w {
    tick = suc (suc w.tick);
    db = (prune_and_count l.scope k (seconds w.tick - l.period / 1000000) w.db).0;
  }

  abbrev pub counted : RateLimiter → String → World → ℕ
  counted l k w = (prune_and_count l.scope k (seconds w.tick - l.period / 1000000) w.db).1

  abbrev pub inserted : RateLimiter → String → World → World
  inserted l k w = record w {
    tick = suc (suc w.tick);
    db = (insert_event (record { scope = l.scope; rkey = k; ts = seconds w.tick }) w.db).0;
  }

module _ (env : Env) (up : (n : ℕ) → env.db_fails n ≡ none) where
  pub check_only_lem :
      (l : RateLimiter) (k : String) (w : World)
      → check_only env l k w ≡ (ok (ltb (counted env l k w) l.max_calls), pruned env l k w)
  unfolding check_only rate_count nowts transact ◌>>=◌ try_except
  check_only_lem l k w = rw (up (suc w.tick)) refl

  pub rate_add_lem :
      (l : RateLimiter) (k : String) (w : World)
      → rate_add env l.scope k w ≡ (ok tt, inserted env l k w)
  unfolding rate_add nowts transact ◌>>=◌ try_except
  rate_add_lem l k w = rw (up (suc w.tick)) refl

  allow_lem :
      (l : RateLimiter) (k : String) (w : World)
      → allow env l k w ≡ (
          if leb l.max_calls (counted env l k w)
          then (ok false, pruned env l k w)
          else (ok true, inserted env l k (pruned env l k w)))
  unfolding allow rate_count nowts transact ◌>>=◌ try_except
  allow_lem l k w = rw (up (suc w.tick)) (elim (Bool-cases (leb l.max_calls (counted env l k w))) [
    | inl e ↦ rw e refl
    | inr e ↦ rw e (rw (rate_add_lem l k (pruned env l k w)) refl)
  ])

  pub sweep_lem :
      (age : ℕ) (w : World)
      → (cleanup_rate_events env age w).1 ≡ record w {
        tick = suc (suc w.tick);
        db = (delete_older (seconds env w.tick - age) w.db).0;
      }
  unfolding cleanup_rate_events nowts transact ◌>>=◌ try_except
  sweep_lem age w = rw (up (suc w.tick)) refl

module _ (env : Env) (up : (n : ℕ) → env.db_fails n ≡ none)
    (forward : (i j : ℕ) → i ≤ j → env.micros i ≤ env.micros j) (l : RateLimiter)
    (key : String) where
  record IsTracked (log : List ℕ) (w : World) : Type 0 where
    stamps : Counted l key (env.micros w.tick / 1000000) w.db.rate_events log
    bound : Bounded l key log

  later : (i j : ℕ) → i ≤ j → env.micros i / 1000000 ≤ env.micros j / 1000000
  later i j h = omega (arith, forward i j h)

  pruned-IsTracked :
      (k : String) (log : List ℕ) (w : World) → IsTracked log w → IsTracked log (pruned env l k w)
  pruned-IsTracked k log w h = record {
    stamps =
        Counted-later l key _ (Counted-prune l key w.db.rate_events h.stamps k) _
          (later w.tick (suc (suc w.tick)) (omega arith));
    bound = h.bound;
  }

  pruned_foreign :
      (l' : RateLimiter) (k : String) (log : List ℕ) (w : World)
      → l'.scope ≢ l.scope
      → IsTracked log w
      → IsTracked log (pruned env l' k w)
  pruned_foreign l' k log w ne h = record {
    stamps =
        Counted-later l key _
          (Counted-prune_foreign l key w.db.rate_events h.stamps l'.scope k _ ne) _
          (later w.tick (suc (suc w.tick)) (omega arith));
    bound = h.bound;
  }

  -- An admitted call of another row key, or another scope, leaves the stamps as they are.
  inserted_other :
      (l' : RateLimiter) (k : String) (log : List ℕ) (w : World)
      → (l'.scope == l.scope && k == key) ≡ false
      → IsTracked log w
      → IsTracked log (inserted env l' k w)
  inserted_other l' k log w ne h = record {
    stamps =
        Counted-later l key _ (Counted-insert_foreign l key w.db.rate_events h.stamps _ ne) _
          (later w.tick (suc (suc w.tick)) (omega arith));
    bound = h.bound;
  }

  admitted-IsTracked :
      (log : List ℕ) (w : World)
      → leb l.max_calls (counted env l key w) ≡ false
      → IsTracked log w
      → IsTracked (seconds env (suc (suc w.tick)) ∷ log) (inserted env l key (pruned env l key w))
  admitted-IsTracked log w room h = record {
    stamps =
        Counted-later l key _
          (Counted-insert l key _ (pruned-IsTracked key log w h).stamps
            (record { scope = l.scope; rkey = key; ts = seconds env (suc (suc w.tick)) })
            (ground (arith, eq_iff l.scope l.scope, eq_iff key key)))
          _ (later _ (suc (suc (suc (suc w.tick)))) (omega arith));
    bound =
        Bounded-insert l key _ _ w.db.rate_events log h.stamps h.bound (ground arith)
          (later w.tick (suc (suc w.tick)) (omega arith));
  }

  -- A call of `allow` for any key of the limiter.
  admit-IsTracked :
      (k : String) (log : List ℕ) (w : World)
      → IsTracked log w
      → let (new, w') = step env l key (admit k) w in IsTracked (new ++ log) w'
  admit-IsTracked k log w h =
      rw (allow_lem env up l k w) (elim (Bool-cases (leb l.max_calls (counted env l k w))) [
        | inl full ↦ rw full (pruned-IsTracked k log w h)
        | inr room ↦ rw room (elim (Bool-cases (k == key)) [
          | inl same ↦
              (let p = (eq_iff k key).0 same in
                rw (same, p) (admitted-IsTracked log w (rw p at room) h))
          | inr ne ↦
              rw ne (inserted_other l k log _ (ground (arith, ne)) (pruned-IsTracked k log w h))
        ])
      ])

  step-IsTracked :
      (op : Op) (log : List ℕ) (w : World)
      → Fits l op
      → IsTracked log w
      → let (new, w') = step env l key op w in IsTracked (new ++ log) w'
  step-IsTracked (admit k) log w f h = admit-IsTracked k log w h
  step-IsTracked (probe k) log w f h = rw (check_only_lem env up l k w) (pruned-IsTracked k log w h)
  step-IsTracked (foreign l' k) log w f h =
      rw (allow_lem env up l' k w) (elim (Bool-cases (leb l'.max_calls (counted env l' k w))) [
        | inl full ↦ rw full (pruned_foreign l' k log w f h)
        | inr room ↦ rw room (
            inserted_other l' k log _ (ground (arith, eq_iff l'.scope l.scope))
              (pruned_foreign l' k log w f h))
      ])
  step-IsTracked (sweep age) log w f h = rw (sweep_lem env up age w) (record {
    stamps =
        Counted-later l key _ (Counted-older l key w.db.rate_events h.stamps age f) _
          (later w.tick (suc (suc w.tick)) (omega arith));
    bound = h.bound;
  })

  run-IsBounded :
      (ops : List Op) (log : List ℕ) (w : World)
      → All (Fits l) ops
      → IsTracked log w
      → Bounded l key (run env l key ops log w)
  unfolding run
  run-IsBounded [] log w f h = h.bound
  run-IsBounded (op ∷ ops) log w f h =
      let (new, w') = step env l key op w in
      run-IsBounded ops (new ++ log) w' f.1 (step-IsTracked op log w f.0 h)

  empty-IsTracked : (w : World) → count (is_row l.scope key) w.db.rate_events ≡ 0 → IsTracked [] w
  empty-IsTracked w none_yet = record {
    stamps = record {
      since = λ c p. omega (
        arith,
        none_yet,
        count_mono (is_since l.scope key c) (is_row l.scope key) w.db.rate_events
            (λ e q. ground arith),
      );
    };
    bound = λ t. omega arith;
  }

-- While the database answers and the clock does not run backwards, whatever the calls of `allow`
-- and `check_only` for any keys of a limiter, the calls of limiters with another scope, and the
-- sweeps of an age that is no shorter than the period: if the key has no row at the start, no
-- interval of the period, cut to whole seconds, both ends included, has more than `max_calls` admitted calls of
-- the key.
pub allow_window :
    (env : Env)
    → ((n : ℕ) → env.db_fails n ≡ none)
    → ((i j : ℕ) → i ≤ j → env.micros i ≤ env.micros j)
    → (l : RateLimiter) (key : String) (ops : List Op) (w : World) → All (Fits l) ops
    → count (is_row l.scope key) w.db.rate_events ≡ 0
    → (t : ℕ)
    → count (λ u. leb t u && leb u (t + l.period / 1000000)) (run env l key ops [] w) ≤ l.max_calls
allow_window env up forward l key ops w f none_yet =
    run-IsBounded env up forward l key ops [] w f (empty-IsTracked env up forward l key w none_yet)
