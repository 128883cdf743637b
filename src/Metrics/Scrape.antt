-- ===== src/Metrics/Scrape.antt =====
-- Who is shown the metrics, and what they are.
use text.Mathlib.TextPositions.{eq_refl}
use lvyou_smsweb.World.{Env, World, ok, transact, ◌>>=◌, try_except, pure, raise, set_gauges}
use lvyou_smsweb.Auth.Http.{Request, compare_digest}
use lvyou_smsweb.Auth.Gate.{forward, token_auth_mw, Verdict, answer, is_open}
use lvyou_smsweb.Metrics.{
  metrics_auth_mw, middlewares, scrape, refresh_device_gauges, is_online, behind_metrics,
}
use lvyou_smsweb.Prelude.{
  is_empty, String, ◌≡◌, false, none, arith, suc, ◌==◌, eq_iff, length, true, starts_with, count,
  strip, refl, skip, text_comparable, is_ascii, Bool-cases, inl, inr, ◌∙◌, ap,
}
use lvyou_smsweb.World.Preserves.{bind-steps}

refreshed :
    (env : Env) (w : World)
    → env.db_fails w.tick ≡ none
    → env.db_fails (suc w.tick) ≡ none
    → refresh_device_gauges env w ≡ (
      ok tt,
      record w {
        tick = suc (suc w.tick);
        gauges = (length w.db.devices, count is_online w.db.devices);
      },
    )
unfolding refresh_device_gauges transact ◌>>=◌ try_except set_gauges
refreshed env w up up' = rw (up, up') refl

scrape-holds :
    (env : Env) (supplied : String) (w : World)
    → (scrape env supplied w).0 ≡ ok forward
    → supplied ≡ env.config.metrics_token
unfolding scrape compare_digest ◌>>=◌ pure raise
scrape-holds env supplied w h = ground (arith, eq_iff supplied env.config.metrics_token)

mw-holds :
    (env : Env) (req : Request) (w : World)
    → (req.path == "/metrics") ≡ true
    → (metrics_auth_mw env req w).0 ≡ ok forward
    → (starts_with req.authorization "Bearer " ≡ true)
      × (strip (skip 7 req.authorization) ≡ env.config.metrics_token)
unfolding metrics_auth_mw pure
mw-holds env req w path h = elim (Bool-cases (starts_with req.authorization "Bearer ")) [
  | inl bearer ↦ (bearer, scrape-holds env _ w (rw (path, bearer, metrics_auth_mw) at h))
  | inr bare ↦ absurd (ground arith)
]

behind-holds :
    (env : Env) (req : Request) (v : Verdict) (w : World)
    → (behind_metrics env req v w).0 ≡ ok forward
    → v ≡ forward
unfolding pure
behind-holds env req forward w h = refl
behind-holds env req (answer status detail) w h = ground arith

-- The metrics are shown to a client that knows their token and to no other: if the program has a
-- token for them and a request for /metrics gets past the middlewares, then its Authorization
-- header is "Bearer " followed by that token, white space around it aside.
pub middlewares-IsScraper :
    (env : Env) (req : Request) (w : World)
    → is_empty env.config.metrics_token ≡ false
    → (req.path == "/metrics") ≡ true
    → (middlewares env req w).0 ≡ ok forward
    → (starts_with req.authorization "Bearer " ≡ true)
      × (strip (skip 7 req.authorization) ≡ env.config.metrics_token)
unfolding middlewares metrics_auth_mw
middlewares-IsScraper env req w on path h =
    let steps =
      bind-steps (metrics_auth_mw env req) (behind_metrics env req) w forward
        (rw (on, middlewares) at h) in
    let (v, (ev, rest)) = steps in
    mw-holds env req w path (ev ∙ ap ok (behind-holds env req v (metrics_auth_mw env req w).1 rest))

module _ (env : Env) (w : World) where
  abbrev shown : World
  shown = record w {
    tick = suc (suc w.tick);
    gauges = (length w.db.devices, count is_online w.db.devices);
  }

  scrape-shown :
      is_ascii env.config.metrics_token ≡ true
      → env.db_fails w.tick ≡ none
      → env.db_fails (suc w.tick) ≡ none
      → scrape env env.config.metrics_token w ≡ (ok forward, shown)
  unfolding scrape compare_digest ◌>>=◌ pure
  scrape-shown ascii up up' =
      rw (ascii, eq_refl env.config.metrics_token) (rw (refreshed env w up up') refl)

  -- The path is public for the inner middleware.
  token_auth_mw-open :
      (req : Request) (v : World)
      → is_empty env.config.metrics_token ≡ false
      → (req.path == "/metrics") ≡ true
      → token_auth_mw env req v ≡ (ok forward, v)
  unfolding token_auth_mw pure
  token_auth_mw-open req v on path =
      let opened : is_open env req ≡ true =
        rw on (ground (arith, eq_iff req.path "/metrics", eq_iff "/metrics" req.path)) in
      rw opened refl

through :
    (env : Env) (req : Request) (w : World)
    → is_empty env.config.metrics_token ≡ false
    → (req.path == "/metrics") ≡ true
    → starts_with req.authorization "Bearer " ≡ true
    → strip (skip 7 req.authorization) ≡ env.config.metrics_token
    → is_ascii env.config.metrics_token ≡ true
    → env.db_fails w.tick ≡ none
    → env.db_fails (suc w.tick) ≡ none
    → middlewares env req w ≡ (ok forward, shown env w)
unfolding middlewares metrics_auth_mw ◌>>=◌
through env req w on path bearer token ascii up up' =
    rw (on, path, bearer, token)
      (rw (scrape-shown env w ascii up up') (token_auth_mw-open env w req (shown env w) on path))

-- What a scrape shows is the truth of the moment: if a token of ASCII characters is set, then with
-- that token, and while the database answers the two queries, a request for /metrics gets through, and the gauges are the number of
-- rows of devices and of those that are online.
pub middlewares-gauges :
    (env : Env) (req : Request) (w : World)
    → is_empty env.config.metrics_token ≡ false
    → (req.path == "/metrics") ≡ true
    → starts_with req.authorization "Bearer " ≡ true
    → strip (skip 7 req.authorization) ≡ env.config.metrics_token
    → is_ascii env.config.metrics_token ≡ true
    → env.db_fails w.tick ≡ none
    → env.db_fails (suc w.tick) ≡ none
    → ((middlewares env req w).0 ≡ ok forward)
      × ((middlewares env req w).1.gauges ≡ (length w.db.devices, count is_online w.db.devices))
middlewares-gauges env req w on path bearer token ascii up up' =
    let e = through env req w on path bearer token ascii up up' in
    (ap (λ r. r.0) e, ap (λ r. r.1.gauges) e)
