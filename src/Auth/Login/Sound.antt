-- ===== src/Auth/Login/Sound.antt =====
-- Who can log in by `api_login`.
use lvyou_smsweb.World.{
  Env, pure, raise, World, ok, nowts, transact, ◌>>=◌, try_except, Exec, audit, bm_login_failure,
  Entry, ◌>>◌, http,
}
use lvyou_smsweb.Auth.Http.{compare_digest, compare_value, check_login_credentials}
use lvyou_smsweb.RateLimit.{RateLimiter, check_only, rate_count}
use lvyou_smsweb.Auth.Login.{
  user_blocked, user_key, try_login, reject_login, LoginReply, accept_login, gate_login,
}
use lvyou_smsweb.Prelude.{
  String, Bool, Option, ◌≡◌, if◌then◌else◌, false, ◌≢◌, true, some, arith, ap, refl, eq_iff, none,
  is_some, suc, ◌||◌, ltb, count, ◌/◌, Option-cases, ◌-◌, inl, inr, is_empty, ◌⊎◌, Bool-cases, ◌∙◌,
  not,
}
use lvyou_smsweb.World.Preserves.{bind-steps}
use lvyou_smsweb.RateLimit.Window.Bound.{is_since, count-prune}

-- When the limiter is asked in `w`, its rows of the last period are fewer than its limit, or the
-- statement that counts them fails.
abbrev pub IsBelow : Env → RateLimiter → String → World → Type 0
IsBelow env l key w =
    (is_some (env.db_fails (suc w.tick))
      || ltb
          (count (is_since l.scope key (env.micros w.tick / 1000000 - l.period / 1000000))
            w.db.rate_events)
          l.max_calls)
    ≡ true

-- A step that is taken unless `b` and never returns.
guarded :
    (b : Bool) (m k : Exec (Unit {0})) (w : World)
    → ((v : World) (u : Unit {0}) → (m v).0 ≢ ok u)
    → (((if b then pure tt else m) >>= (λ _. k)) w).0 ≡ ok tt
    → (b ≡ true) × ((k w).0 ≡ ok tt)
unfolding ◌>>=◌ pure
guarded true m k w never h = (refl, h)
guarded false m k w never h = let (u, (e, _)) = bind-steps m (λ _. k) w tt h in absurd (never w u e)

settled :
    (b : Bool) (m : Exec (Unit {0})) (w : World)
    → ((v : World) (u : Unit {0}) → (m v).0 ≢ ok u)
    → ((if b then m else pure tt) w).0 ≡ ok tt
    → b ≡ false
settled true m w never h = absurd (never w tt h)
settled false m w never h = refl

not_blocked : (b : Bool) (w : World) → (pure (not b) w).0 ≡ ok false → b ≡ true
unfolding pure
not_blocked true w h = refl
not_blocked false w h = ground arith

refusal :
    (e : Entry) (reason text : String) (w : World) (u : Unit {0})
    → ((audit e >> (bm_login_failure reason >> raise (http 429 text))) w).0 ≢ ok u
unfolding ◌>>=◌ audit bm_login_failure raise
refusal e reason text w u h = ground arith

module _ (env : Env) where
  compare_digest-eq : (a b : String) (w : World) → (compare_digest a b w).0 ≡ ok true → a ≡ b
  unfolding compare_digest pure raise
  compare_digest-eq a b w h = ground (arith, eq_iff a b)

  compare_value-eq :
      (a : Option String) (b : String) (w : World) → (compare_value a b w).0 ≡ ok true → a ≡ some b
  unfolding compare_value pure raise
  compare_value-eq none b w h = ground arith
  compare_value-eq (some a) b w h = ap some (compare_digest-eq a b w h)

  second_check :
      (same : Bool) (password : Option String) (w : World)
      → ((if same then compare_value password env.config.ui_pass else pure false) w).0 ≡ ok true
      → (same ≡ true) × (password ≡ some env.config.ui_pass)
  unfolding pure raise
  second_check true password w h = (refl, compare_value-eq password env.config.ui_pass w h)
  second_check false password w h = ground arith

  pub credentials-right :
      (username : String) (password : Option String) (w : World)
      → (check_login_credentials env username password w).0 ≡ ok true
      → (username ≡ env.config.ui_user) × (password ≡ some env.config.ui_pass)
  unfolding check_login_credentials
  credentials-right username password w h =
      let (same, (e, k)) = bind-steps (compare_digest username env.config.ui_user) _ w true h in
      let (s, p) = second_check same password (compare_digest username env.config.ui_user w).1 k in
      (compare_digest-eq username env.config.ui_user w (rw (s) at e), p)

  module _ (by_ip by_user : RateLimiter) where
    reject-raises :
        (username ip : String) (w : World) (r : LoginReply)
        → (reject_login env by_ip by_user username ip w).0 ≢ ok r
    unfolding reject_login pure raise
    reject-raises username ip w r h =
        let (a, (ea, ha)) = bind-steps _ _ w r h in
        let (b, (eb, hb)) = bind-steps _ _ _ r ha in
        let (c, (ec, hc)) = bind-steps _ _ _ r hb in
        let (d, (ed, hd)) = bind-steps _ _ _ r hc in ground arith

    decide :
        (good : Bool) (username ip : String) (w : World) (r : LoginReply)
        → ((if good
              then accept_login env by_ip by_user username ip
              else reject_login env by_ip by_user username ip)
            w).0
          ≡ ok r
        → good ≡ true
    decide true username ip w r h = refl
    decide false username ip w r h = absurd (reject-raises username ip w r h)

    check_only-IsBelow :
        (l : RateLimiter) (key : String) (w : World)
        → (check_only env l key w).0 ≡ ok true
        → IsBelow env l key w
    unfolding check_only rate_count nowts transact ◌>>=◌ try_except pure
    check_only-IsBelow l key w h = elim (Option-cases (env.db_fails (suc w.tick))) [
      | inl up ↦
          let h' = rw (up) at h in
          let cutoff = env.micros w.tick / 1000000 - l.period / 1000000 in
          rw up (ground (arith, h', count-prune l key cutoff w.db.rate_events))
      | inr (e, down) ↦ rw down refl
    ]

    user_free :
        (key : String) (blocked : Bool) (w : World)
        → (user_blocked env by_ip by_user key w).0 ≡ ok blocked
        → blocked ≡ false
        → (is_empty key ≡ true) ⊎ IsBelow env by_user key w
    user_free key blocked w h free = elim (Bool-cases (is_empty key)) [
      | inl empty ↦ inl empty
      | inr some_key ↦ inr (
          let h' = rw (some_key, free) at h in
          let (b, (eb, hb)) = bind-steps (check_only env by_user key) _ w false h' in
          check_only-IsBelow by_user key w (eb ∙ ap ok (not_blocked b _ hb)))
    ]

    gate-IsBelow :
        (username ip : String) (w : World)
        → (gate_login env by_ip by_user username ip w).0 ≡ ok tt
        → IsBelow env by_ip ip w
          × ((is_empty (user_key env by_ip by_user username) ≡ true)
              ⊎ IsBelow env by_user
                  (user_key env by_ip by_user username)
                  (check_only env by_ip ip w).1)
    unfolding gate_login
    gate-IsBelow username ip w h =
        let w1 = (check_only env by_ip ip w).1 in
        let key = user_key env by_ip by_user username in
        let (free, (e1, h1)) = bind-steps (check_only env by_ip ip) _ w tt h in
        let (yes1, h2) = guarded free _ _ w1 (refusal _ _ _) h1 in
        let (blocked, (e2, h3)) = bind-steps (user_blocked env by_ip by_user key) _ w1 tt h2 in
        (
          check_only-IsBelow by_ip ip w (e1 ∙ ap ok yes1),
          user_free key blocked w1 e2 (settled blocked _ _ (refusal _ _ _) h3),
        )

    -- A login that is answered with a session had the configured name and the configured password;
    -- when it was asked, the limit of the address was not reached by the failures of the last period;
    -- and neither was then that of the name, unless the name's key is empty. A limit counts as not
    -- reached where the statement that counts the failures fails.
    pub login_sound :
        (username : String) (password : Option String) (ip : String) (w : World) (r : LoginReply)
        → (try_login env by_ip by_user username password ip w).0 ≡ ok r
        → ((username ≡ env.config.ui_user) × (password ≡ some env.config.ui_pass))
          × (IsBelow env by_ip ip w
              × ((is_empty (user_key env by_ip by_user username) ≡ true)
                  ⊎ IsBelow env by_user
                      (user_key env by_ip by_user username)
                      (check_only env by_ip ip w).1))
    unfolding try_login
    login_sound username password ip w r h =
        let (u, (eu, hu)) = bind-steps (gate_login env by_ip by_user username ip) _ w r h in
        let w1 = (gate_login env by_ip by_user username ip w).1 in
        let (good, (eg, hg)) =
          bind-steps (check_login_credentials env username password) _ w1 r hu in
        let yes = decide good username ip _ r hg in
        (credentials-right username password w1 (rw (yes) at eg), gate-IsBelow username ip w eu)
