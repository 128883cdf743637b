-- ===== src/Scan/Routes.antt =====
-- The routes of backend/routes/scan.py, and the loop of backend/main.py that sweeps what is old.
use lvyou_smsweb.World.{
  Env, Exec, put_scans, ask, ◌>>◌, ◌>>=◌, or_raise, try_except, http, pure, audit_detail,
}
use lvyou_smsweb.Prelude.{
  String, Option, strip, or_else, some, if◌then◌else◌, ℕ, is_empty, none, concat, ◌∷◌, [],
}
use lvyou_smsweb.Scan.Registry.{
  cleanup_old_scans, get_scan, store_scan, StatusReply, new_state, to_dict,
}
use lvyou_smsweb.Security.Address.{ip_network}
use lvyou_smsweb.Sessions.{cleanup_expired_tokens}
use lvyou_smsweb.RateLimit.{cleanup_rate_events}
use lvyou_smsweb.Devices.Rows.{cleanup_stale_devices}
use lvyou_smsweb.Security.Commands.{guess_ipv4_cidr}

-- The task that a request leaves to run in the background.
pub record ScanTask : Type 0 where
  pub scan_id : String
  pub cidr : String
  pub group : Option String
  pub user : String
  pub password : String

module _ (env : Env) where
  -- `if not cidr: cidr = _guessipv4cidr()`
  unfoldable pub choose_cidr : Option String → Exec String
  unfolding guess_ipv4_cidr
  choose_cidr none = guess_ipv4_cidr env
  choose_cidr (some cidr) = if is_empty cidr then guess_ipv4_cidr env else pure cidr

  unfoldable pub accept_scan : String → Option String → String → String → Exec ScanTask
  unfolding ip_network store_scan put_scans
  accept_scan cidr group user password = do
    or_raise (ip_network env cidr) (http 400 "无效的网段")
    scan_id ← ask env.new_scan
    put_scans (store_scan scan_id (record new_state { cidr = cidr }))
    audit_detail "scan_start" (concat ("cidr=" ∷ cidr ∷ []))
    pure
        (record { scan_id = scan_id; cidr = cidr; group = group; user = user; password = password })

  unfoldable pub submit_scan : Option String → Option String → String → String → Exec ScanTask
  unfolding choose_cidr accept_scan
  submit_scan wanted group user password = do
    cidr ← choose_cidr wanted
    accept_scan cidr group user password

  unfoldable pub scanstart : Option String → Option String → String → String → Exec ScanTask
  unfolding submit_scan strip
  scanstart cidr group user password =
      submit_scan cidr group (or_else (strip user) "admin") (or_else (strip password) "admin")

  unfoldable pub scanstatus : String → Exec StatusReply
  unfolding cleanup_old_scans get_scan
  scanstatus scan_id = do
    cleanup_old_scans env
    found ← get_scan scan_id
    st ← or_raise found (http 404 "扫描任务不存在")
    pure (to_dict st)

  -- One round of `_scan_cleanup_loop`, with `_rate_max_period()`; what it raises is logged.
  unfoldable pub cleanup_round : ℕ → Exec (Unit {0})
  unfolding cleanup_old_scans cleanup_expired_tokens cleanup_rate_events cleanup_stale_devices
  cleanup_round max_period =
      try_except
        (do
          cleanup_old_scans env
          cleanup_expired_tokens env
          cleanup_rate_events env max_period
          cleanup_stale_devices env)
        (λ _. pure tt)
