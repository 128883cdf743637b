-- ===== src/Auth/Login/Guesses.antt =====
-- How many wrong passwords `api_login` looks at for an address in a window of its limit.
use lvyou_smsweb.Auth.Login.Covers.{
  Covers, passed, login_rules, credentials-Kept, gate-Kept, allow_other-Kept, try-Kept, sweep-Kept,
}
use lvyou_smsweb.Auth.Login.History.{
  Op, Fits, is_guess, step, guesses, passes, is_wrong, login, foreign, sweep,
}
use lvyou_smsweb.RateLimit.{record_event, RateLimiter}
use lvyou_smsweb.World.{
  Result, ok, err, pure, raise, ◌>>=◌, Exec, Env, World, audit, bm_login_failure,
}
use lvyou_smsweb.World.Preserves.{Preserves, after-holds}
use lvyou_smsweb.RateLimit.Window.Bound.{
  count-prune, counted, inserted, rate_add_lem, seconds, check_only_lem, is_since,
}
use lvyou_smsweb.Prelude.{
  Bool-cases, inl, inr, true, false, none, [], ◌∷◌, ◌++◌, text_comparable, number_comparable, ◌==◌,
  String, Bool, List, Option, ℕ, ◌≢◌, ◌≡◌, ◌/◌, ◌&&◌, count, leb, ◌≤◌, arith, ltb, ◌+◌, ◌-◌, suc,
  count_mono, eq_iff, refl, All,
}
use lvyou_smsweb.Auth.Login.{gate_login, try_login, reject_login}
use lvyou_smsweb.Auth.Http.{check_login_credentials}

passed_ok : (r : Result (Unit {0})) → passes r ≡ true → r ≡ ok tt
passed_ok (ok tt) h = refl
passed_ok (err e) h = ground arith

wrong_is_false : (r : Result Bool) → is_wrong r ≡ true → r ≡ ok false
wrong_is_false (ok false) h = refl
wrong_is_false (ok true) h = ground arith
wrong_is_false (err e) h = ground arith

module _ (env : Env) (l lu : RateLimiter) (key : String) where
  abbrev Bounded : List ℕ → Type 0
  Bounded log = (t : ℕ) → count (λ u. leb t u && leb u (t + l.period / 1000000)) log ≤ l.max_calls

  bind-holds :
      {A B : Type 0} (P : World → Type 0) (m : Exec A) (f : A → Exec B) (w : World)
      → P (m w).1
      → ((a : A) → Preserves P (f a))
      → P ((m >>= f) w).1
  unfolding ◌>>=◌
  bind-holds P m f w h hf = after-holds f hf (m w).0 (m w).1 h

  module _ (up : (n : ℕ) → env.db_fails n ≡ none)
      (forward : (i j : ℕ) → i ≤ j → env.micros i ≤ env.micros j) (apart : lu.scope ≢ l.scope) where
    gate-few :
        (username : String) (w : World)
        → passes (gate_login env l lu username key w).0 ≡ true
        → ltb (counted env l key w) l.max_calls ≡ true
    unfolding gate_login ◌>>=◌ audit bm_login_failure raise pure
    gate-few username w h = elim (Bool-cases (ltb (counted env l key w) l.max_calls)) [
      | inl few ↦ few
      | inr full ↦ absurd (ground (arith, rw (check_only_lem env up l key w, full) at h))
    ]

    inserted-Covers :
        (start : ℕ) (log : List ℕ) (w : World)
        → Covers env l lu key start log w
        → Covers env l lu key start (start ∷ log) (inserted env l key w)
    inserted-Covers start log w h = record {
      rows = λ c p. ground (
        arith,
        h.rows c (
            omega (
              arith,
              p,
              passed env l lu key up forward apart start w.tick (suc (suc w.tick)) (omega arith),
            )),
        h.begun,
        eq_iff l.scope l.scope,
        eq_iff key key,
      );
      begun = omega (
        arith,
        h.begun,
        passed env l lu key up forward apart start w.tick (suc (suc w.tick)) (omega arith),
      );
    }

    reject-Covers :
        (start : ℕ) (log : List ℕ) (username : String) (w : World)
        → Covers env l lu key start log w
        → Covers env l lu key start (start ∷ log) (reject_login env l lu username key w).1
    unfolding reject_login record_event
    reject-Covers start log username w h =
        bind-holds (Covers env l lu key start (start ∷ log)) (record_event env l key) _ w
          (rw (rate_add_lem env up l key w) (inserted-Covers start log w h))
          (λ a. search login_rules depth 14)

    Bounded-guess :
        (log : List ℕ) (w : World)
        → Covers env l lu key (seconds env w.tick) log w
        → Bounded log
        → ltb (counted env l key w) l.max_calls ≡ true
        → Bounded (seconds env w.tick ∷ log)
    Bounded-guess log w h b few t = ground (
      arith,
      b t,
      count-prune l key (seconds env w.tick - l.period / 1000000) w.db.rate_events,
      h.rows t,
      count_mono (λ u. leb t u && leb u (t + l.period / 1000000)) (leb t) log (λ u q. ground arith),
      count_mono (is_since l.scope key t)
          (is_since l.scope key (seconds env w.tick - l.period / 1000000)) w.db.rate_events,
    )

    -- A wrong password that is looked at.
    guess-Covers :
        (log : List ℕ) (username : String) (password : Option String) (w : World)
        → is_guess env l lu key username password w ≡ true
        → Covers env l lu key (seconds env w.tick) log w
        → Covers env l lu key
            (seconds env w.tick)
            (seconds env w.tick ∷ log)
            (try_login env l lu username password key w).1
    unfolding try_login ◌>>=◌
    guess-Covers log username password w g h =
        let start = seconds env w.tick in
        let (r, w1) = gate_login env l lu username key w in
        let (s, w2) = check_login_credentials env username password w1 in
        rw (passed_ok r (ground arith), wrong_is_false s (ground arith))
          (reject-Covers start log username w2 (
            (credentials-Kept env l lu key up forward apart start log username password).holds w1
              ((gate-Kept env l lu key up forward apart start log username key).holds w h)))

    record IsTracked (log : List ℕ) (w : World) : Type 0 where
      covers : Covers env l lu key (seconds env w.tick) log w
      bound : Bounded log

    -- The table still covers the history at the time at which a call ends.
    again :
        (start : ℕ) (log : List ℕ) (w : World)
        → Covers env l lu key start log w
        → Covers env l lu key (seconds env w.tick) log w
    again start log w h = record { rows = h.rows; begun = omega arith }

    login-IsTracked :
        (ip username : String) (password : Option String) (log : List ℕ) (w : World)
        → IsTracked log w
        → let (new, w') = step env l lu key (login ip username password) w in
          IsTracked (new ++ log) w'
    login-IsTracked ip username password log w h =
        let guess = ip == key && is_guess env l lu key username password w in
        elim (Bool-cases guess) [
          | inl hit ↦
              (let mine : ip ≡ key = ground (arith, eq_iff ip key) in
                let wrong : is_guess env l lu key username password w ≡ true = ground arith in
                rw (hit, mine)
                  (record {
                    covers = again _ _ _ (guess-Covers log username password w wrong h.covers);
                    bound =
                        Bounded-guess log w h.covers h.bound (gate-few username w (ground arith));
                  }))
          | inr miss ↦ rw miss (record {
            covers = again _ _ _ (
                (try-Kept env l lu key up forward apart (seconds env w.tick) log username password
                    ip).holds
                  w h.covers);
            bound = h.bound;
          })
        ]

    step-IsTracked :
        (op : Op) (log : List ℕ) (w : World)
        → Fits l op
        → IsTracked log w
        → let (new, w') = step env l lu key op w in IsTracked (new ++ log) w'
    step-IsTracked (login ip username password) log w f h =
        login-IsTracked ip username password log w h
    step-IsTracked (foreign l' k) log w f h = record {
      covers = again _ _ _ (
          (allow_other-Kept env l lu key up forward apart (seconds env w.tick) log l' k f).holds w
            h.covers);
      bound = h.bound;
    }
    step-IsTracked (sweep age) log w f h = record {
      covers = again _ _ _ (
          (sweep-Kept env l lu key up forward apart (seconds env w.tick) log age f).holds w
            h.covers);
      bound = h.bound;
    }

    guesses-IsBounded :
        (ops : List Op) (log : List ℕ) (w : World)
        → All (Fits l) ops
        → IsTracked log w
        → Bounded (guesses env l lu key ops log w)
    unfolding guesses
    guesses-IsBounded [] log w f h = h.bound
    guesses-IsBounded (op ∷ ops) log w f h =
        let (new, w') = step env l lu key op w in
        guesses-IsBounded ops (new ++ log) w' f.1 (step-IsTracked op log w f.0 h)

-- While the database answers and the clock does not run backwards, and if the limiters of addresses
-- and of names have different scopes: whatever logins from any addresses, calls of limiters with
-- another scope, and sweeps of an age that is no shorter than the period follow each other, no
-- interval of the period of the limiter of addresses, cut to whole seconds, both ends included, has the beginnings of
-- more than `max_calls` logins from one address whose wrong name or password was looked at.
pub guesses_bounded :
    (env : Env)
    → ((n : ℕ) → env.db_fails n ≡ none)
    → ((i j : ℕ) → i ≤ j → env.micros i ≤ env.micros j)
    → (login_limiter_ip login_limiter_user : RateLimiter)
    → login_limiter_user.scope ≢ login_limiter_ip.scope
    → (client_ip : String) (ops : List Op) (w : World) → All (Fits login_limiter_ip) ops
    → (t : ℕ)
    → count
        (λ u. leb t u && leb u (t + login_limiter_ip.period / 1000000))
        (guesses env login_limiter_ip login_limiter_user client_ip ops [] w)
      ≤ login_limiter_ip.max_calls
guesses_bounded env up forward l lu apart client_ip ops w f =
    guesses-IsBounded env l lu client_ip up forward apart ops [] w f (record {
      covers = record { rows = λ c p. omega arith; begun = omega arith };
      bound = λ t. omega arith;
    })
