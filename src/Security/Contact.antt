-- ===== src/Security/Contact.antt =====
-- `prewarm_neighbors` and `tcp_port_open` of backend/security.py: the addresses that a scan pings
-- and connects to.
use lvyou_smsweb.World.{Env, Exec, pure, Network, ok, ◌>>◌, ◌>>=◌, time, ask, traverse}
use lvyou_smsweb.Prelude.{String, Bool, ℕ, ◌∷◌, if◌then◌else◌, ◌+◌, leb, map}
use lvyou_smsweb.Security.Address.{first_hosts, show_v4}

-- A ping or a connection, whatever becomes of it.
unfoldable pub contact : String → Exec (Unit {0})
contact ip w = (ok tt, record w { contacts = ip ∷ w.contacts })

module _ (env : Env) where
  -- One host of `prewarm_neighbors`, for 8 seconds from its beginning.
  unfoldable pub ping : ℕ → String → Exec (Unit {0})
  unfolding contact
  ping deadline ip = do
    now ← time env
    if leb deadline now then pure tt else (do time env; contact ip)

  unfoldable pub prewarm_neighbors : Network → Exec (Unit {0})
  unfolding ping first_hosts
  prewarm_neighbors net = do
    start ← time env
    traverse (ping (start + 8000000)) (map show_v4 (first_hosts env.config.cidr_fallback_limit net))
    pure tt

  unfoldable pub tcp_port_open : String → Exec Bool
  unfolding contact
  tcp_port_open ip = do contact ip; ask (λ n. env.tcp_open n ip)
