-- ===== src/Auth/Login/Outcome.antt =====
-- How `api_login` answers while the database does.
use lvyou_smsweb.World.{
  Env, World, err, http, ◌>>=◌, pure, raise, audit, bm_login_failure, ok, transact, nowts, ask,
  Entry,
}
use lvyou_smsweb.Prelude.{
  ℕ, ◌-◌, ◌/◌, ◌≤◌, String, Option, none, ◌≡◌, refl, arith, ltb, count, false, ◌<◌, true, ap,
  if◌then◌else◌, Bool-cases, is_empty, inl, inr, is_ascii, some, eq_iff,
}
use lvyou_smsweb.RateLimit.{RateLimiter, reset, check_only, rate_reset, delete_rows}
use lvyou_smsweb.RateLimit.Window.Bound.{is_since, count-prune, check_only_lem, counted}
use lvyou_smsweb.Auth.Login.{try_login, gate_login, accept_login, LoginReply, user_key}
use lvyou_smsweb.Sessions.{issue_token, cleanup_expired_tokens, insert_token}
use lvyou_smsweb.World.Results.{Yields, Yields-bind, Yields-try}
use lvyou_smsweb.Db.{Db}
use lvyou_smsweb.Auth.Http.{
  set_auth_cookies, check_login_credentials, compare_value, compare_digest,
}

-- The rows that the limiter has of the key in the period before `w`.
abbrev pub recent : Env → RateLimiter → String → World → ℕ
recent env l key w =
    count (is_since l.scope key (env.micros w.tick / 1000000 - l.period / 1000000)) w.db.rate_events

reached :
    (env : Env) (l : RateLimiter) (key : String) (w : World)
    → l.max_calls ≤ recent env l key w
    → ltb (counted env l key w) l.max_calls ≡ false
reached env l key w h =
    ground
      (arith, count-prune l key (env.micros w.tick / 1000000 - l.period / 1000000) w.db.rate_events)

-- While the database answers: if the rows of the limiter of addresses for an address, which are its
-- failed logins, reach the limit in the last period, then a login from the address is answered 429,
-- whatever the name and the password, also if they are right, and the sessions stay as they are.
pub locked_out :
    (env : Env)
    → ((n : ℕ) → env.db_fails n ≡ none)
    → (login_limiter_ip login_limiter_user : RateLimiter) (username : String)
      (password : Option String) (client_ip : String) (w : World)
    → login_limiter_ip.max_calls ≤ recent env login_limiter_ip client_ip w
    → let (r, w') =
        try_login env login_limiter_ip login_limiter_user username password client_ip w in
      (r ≡ err (http 429 "登录尝试过于频繁，请稍后再试")) × (w'.db.auth_tokens ≡ w.db.auth_tokens)
unfolding try_login gate_login ◌>>=◌ audit bm_login_failure raise pure
locked_out env up li lu username password client_ip w h =
    rw (check_only_lem env up li client_ip w, reached env li client_ip w h) (refl, refl)

-- The answer to a login, with the cookies of a token.
abbrev pub IsReply : Env → String → LoginReply → Type 0
IsReply env username r =
    (token : String) × (r ≡ record {
      username = username;
      expires_in = env.config.token_ttl_seconds;
      cookies = set_auth_cookies env token;
    })

module _ (env : Env) (up : (n : ℕ) → env.db_fails n ≡ none) where
  abbrev Any : {A : Type 0} → A → Type 0
  Any a = Unit {0}

  ask-Yields : {A : Type 0} (f : ℕ → A) → Yields Any (ask f)
  unfolding ask
  ask-Yields f w = (f w.tick, (refl, tt))

  nowts-Yields : Yields Any (nowts env)
  unfolding nowts
  nowts-Yields = ask-Yields _

  transact-Yields : {A : Type 0} (f : Db → Db × A) → Yields Any (transact env f)
  unfolding transact
  transact-Yields f w = ((f w.db).1, (rw (up w.tick) refl, tt))

  audit-Yields : (e : Entry) → Yields Any (audit e)
  unfolding audit
  audit-Yields e w = (tt, (refl, tt))

  issue_token-Yields : (username : String) → Yields Any (issue_token env username)
  unfolding issue_token cleanup_expired_tokens insert_token pure
  issue_token-Yields username =
      Yields-bind Any Any _ _ (Yields-try Any _ tt tt (λ w a e. tt)) (λ _ _.
        Yields-bind Any Any _ _ (ask-Yields env.new_token) (λ token _.
          Yields-bind Any Any _ _ nowts-Yields
            (λ now _. Yields-bind Any Any _ _ (transact-Yields _) (λ _ _ w. (token, (refl, tt))))))

  module _ (li lu : RateLimiter) (username client_ip : String) where
    check-ok :
        (l : RateLimiter) (key : String) (w : World)
        → recent env l key w < l.max_calls
        → (check_only env l key w).0 ≡ ok true
    check-ok l key w few = rw (check_only_lem env up l key w) (
        ap ok (
          ground (
            arith,
            count-prune l key (env.micros w.tick / 1000000 - l.period / 1000000) w.db.rate_events,
          )))

    reset-Yields : (key : String) → Yields Any (if is_empty key then pure tt else reset env lu key)
    unfolding reset rate_reset pure
    reset-Yields key w = elim (Bool-cases (is_empty key)) [
      | inl empty ↦ (tt, (rw empty refl, tt))
      | inr full ↦
          let (u, (e, _)) =
            Yields-try Any (transact env (delete_rows lu.scope key)) tt tt (λ w a e. tt) w in
          (u, (rw full e, tt))
    ]

    accept_login-Yields : Yields (IsReply env username) (accept_login env li lu username client_ip)
    unfolding accept_login pure
    accept_login-Yields =
        Yields-bind Any (IsReply env username) _ _ (reset-Yields (user_key env li lu username))
          (λ _ _.
            Yields-bind Any (IsReply env username) _ _ (issue_token-Yields username) (λ token _.
              Yields-bind Any (IsReply env username) _ _ (audit-Yields _)
                (λ _ _ w. (_, (refl, (token, refl))))))

    gate-ok :
        (w : World)
        → recent env li client_ip w < li.max_calls
        → recent env lu (user_key env li lu username) (check_only env li client_ip w).1
          < lu.max_calls
        → (gate_login env li lu username client_ip w).0 ≡ ok tt
    unfolding gate_login ◌>>=◌ pure
    gate-ok w few few' =
        let key = user_key env li lu username in
        let w1 = (check_only env li client_ip w).1 in
        rw (check-ok li client_ip w few) (elim (Bool-cases (is_empty key)) [
          | inl empty ↦ rw empty refl
          | inr full ↦ rw (full, check-ok lu key w1 few') refl
        ])

    credentials-ok :
        (w : World)
        → username ≡ env.config.ui_user
        → is_ascii env.config.ui_user ≡ true
        → is_ascii env.config.ui_pass ≡ true
        → check_login_credentials env username (some env.config.ui_pass) w ≡ (ok true, w)
    unfolding check_login_credentials compare_value compare_digest ◌>>=◌ pure
    credentials-ok w mine ascii ascii' =
        rw (mine, ascii, ascii')
          (ground (
            arith,
            eq_iff env.config.ui_user env.config.ui_user,
            eq_iff env.config.ui_pass env.config.ui_pass,
          ))

-- While the database answers, the configured name and password are ASCII texts, and neither limit is
-- reached by the rows of the last period: a login with that name and password is answered, with the
-- name, the lifetime, and the cookies of a token.
pub login_complete :
    (env : Env)
    → ((n : ℕ) → env.db_fails n ≡ none)
    → (login_limiter_ip login_limiter_user : RateLimiter) (username client_ip : String) (w : World)
    → username ≡ env.config.ui_user
    → is_ascii env.config.ui_user ≡ true
    → is_ascii env.config.ui_pass ≡ true
    → recent env login_limiter_ip client_ip w < login_limiter_ip.max_calls
    → recent env login_limiter_user
        (user_key env login_limiter_ip login_limiter_user username)
        (check_only env login_limiter_ip client_ip w).1
      < login_limiter_user.max_calls
    → (reply : LoginReply) × (((try_login env login_limiter_ip login_limiter_user username
            (some env.config.ui_pass)
            client_ip
            w).0
          ≡ ok reply)
        × IsReply env username reply)
unfolding try_login ◌>>=◌
login_complete env up li lu username client_ip w mine ascii ascii' few few' =
    let w1 = (gate_login env li lu username client_ip w).1 in
    rw
      (
        gate-ok env up li lu username client_ip w few few',
        credentials-ok env up li lu username client_ip w1 mine ascii ascii',
      )
      (accept_login-Yields env up li lu username client_ip w1)
