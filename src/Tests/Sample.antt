-- ===== src/Tests/Sample.antt =====
-- An environment that the tests run in: a clock that moves a second at each question, a database
-- that answers, and a board that accepts everything.
use lvyou_smsweb.World.{Env, World, Config, ok}
use lvyou_smsweb.Db.{Db}
use lvyou_smsweb.Prelude.{ℕ, ◌≤◌, ◌*◌, false, true, [], arith, none, some}

abbrev pub config : Config
config = record {
  ui_user = "admin";
  ui_pass = "s3cret";
  insecure_default_password = false;
  cookie_secure = false;
  cookie_samesite = "lax";
  auth_cookie_name = "board_mgr_auth";
  csrf_cookie_name = "board_mgr_csrf";
  metrics_token = "";
  token_ttl_seconds = 7200;
  trusted_proxy_hops = 1;
  local_nets_cache_ttl = 60000000;
  scan_retries = 3;
  ota_batch_max = 64;
  batch_max = 128;
  config_max_chars = 524288;
  sms_max_len = 500;
  cidr_fallback_limit = 1024;
  scan_ttl = 3600000000;
  stale_device_ttl = 604800;
}

abbrev pub env : Env
env = record {
  config = config;
  micros = λ n. n * 1000000;
  db_fails = λ n. none;
  reply = λ n c. ok (record { status_code = 200; www_authenticate = ""; text = ""; body = none });
  addr_show = λ n. none;
  new_token = λ n. "t0ken";
  csrf = λ key token. "c5rf";
  lower = λ s. s;
  upper = λ s. s;
  now_text = λ n. "2026-01-01 00:00:00";
  str_of = λ v. "";
  dumps = λ v. "{}";
  int_of = λ s. none;
  loads = λ s. none;
  regex_sub = λ n flags pattern replacement config. ok (some config);
  proc_arp = λ n. none;
  neigh_show = λ n. none;
  tcp_open = λ n ip. true;
  route_show = λ n. none;
  dev_show = λ n dev. none;
  new_scan = λ n. "5ca0";
  parse_v6 = λ s. none;
  parse_mask = λ s. none;
}

abbrev pub db : Db
db = record { devices = []; auth_tokens = []; rate_events = [] }

abbrev pub world : World
world = record {
  tick = 0;
  db = db;
  sent = [];
  audit_log = [];
  login_failures = [];
  nets = (0, []);
  scans = [];
  contacts = [];
  gauges = (0, 0);
}

pub forwards : (i j : ℕ) → i ≤ j → env.micros i ≤ env.micros j
forwards i j h = omega arith
