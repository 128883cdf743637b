-- ===== src/World/Effects.antt =====
-- The state and exception monad of the backend, its environment, and the primitive effects.
use lvyou_smsweb.Prelude.{
  ℕ, suc, ◌/◌, String, Bool, Option, none, some, List, [], ◌∷◌, if◌then◌else◌,
}
use lvyou_smsweb.Json.{Json, ℤ}
use lvyou_smsweb.Db.{Db}
use lvyou_smsweb.World.Scans.{ScanState}

-- `HTTPException(status, detail)`, and every other exception by its text.
pub data Exc : Type 0 where
  http : ℕ → String → Exc
  other : String → Exc

-- `exc.detail` of an HTTPException, `str(exc)` of any other.
abbrev pub exc_text : Exc → String
exc_text (http status detail) = detail
exc_text (other text) = text

pub data Result (A : Type 0) : Type 0 where
  ok : A → Result A
  err : Exc → Result A

abbrev pub Pairs : Type 0
Pairs = List (String × String)

-- A call of the shared httpx client for a board; `auth` is the digest user and password. With it the
-- client sends up to two HTTP requests to the same address: the first is answered by a challenge.
pub record Call : Type 0 where
  pub method : String
  pub ip : String
  pub path : String
  pub params : Pairs
  pub content : String
  pub form : Pairs
  pub auth : Option (String × String)

-- `body` is what `resp.json()` returns, none where it raises.
pub record Response : Type 0 where
  pub status_code : ℕ
  pub www_authenticate : String
  pub text : String
  pub body : Option Json

-- backend/config.py and the limits that main.py reads; periods are in microseconds.
pub record Config : Type 0 where
  pub ui_user : String
  pub ui_pass : String
  pub insecure_default_password : Bool
  pub cookie_secure : Bool
  pub cookie_samesite : String
  pub auth_cookie_name : String
  pub csrf_cookie_name : String
  pub metrics_token : String
  pub token_ttl_seconds : ℕ
  pub trusted_proxy_hops : ℕ
  pub local_nets_cache_ttl : ℕ
  pub scan_retries : ℕ
  pub ota_batch_max : ℕ
  pub batch_max : ℕ
  pub config_max_chars : ℕ
  pub sms_max_len : ℕ
  pub cidr_fallback_limit : ℕ
  pub scan_ttl : ℕ
  pub stale_device_ttl : ℕ

-- The flags of a regular expression.
pub record Flags : Type 0 where
  pub ignorecase : Bool
  pub multiline : Bool
  pub dotall : Bool

-- The environment, asked at numbered moments: each question moves the world's `tick` on, so that
-- two answers at different moments are independent of each other.
--   micros:     `time.time()`, in microseconds
--   db_fails:   the text of the exception that a database statement raises, if it raises
--   reply:      what a board answers, or the exception of the HTTP client
--   addr_show:  the output of `ip -o -4 addr show`, none if the command fails
--   new_token:  `secrets.token_urlsafe(32)`
--   csrf:       the HMAC of a session token under the key made of the password
--   lower:      `str.lower`
--   upper:      `str.upper`
--   now_text:   the local date and time, `%Y-%m-%d %H:%M:%S`
--   str_of:     `str(v)` of a JSON value that is no text
--   dumps:      `json.dumps(v, ensure_ascii=False)`
--   int_of:     `int(s)` of a text, none where it raises
--   loads:      `json.loads`, none where it raises
--   regex_sub:  `regex.sub` with a time limit: none where it raises `regex.error` or
--               `TimeoutError`, an error where it raises anything else
--   proc_arp:   the text of /proc/net/arp, none if it cannot be read
--   neigh_show: the output of `ip neigh show`, none if the command fails
--   tcp_open:   `tcp_port_open(ip, 80)`
--   route_show: the output of `ip -4 route show default`, none if the command fails
--   dev_show:   the output of `ip -4 addr show dev X`, none if the command fails
--   new_scan:   `uuid4().hex[:12]`
--   parse_v6:   `IPv6Address`: the 128-bit value of a text, none where it raises
--   parse_mask: the prefix length of a netmask or hostmask in dotted form, none where it raises
pub record Env : Type 0 where
  pub config : Config
  pub micros : ℕ → ℕ
  pub db_fails : ℕ → Option String
  pub reply : ℕ → Call → Result Response
  pub addr_show : ℕ → Option String
  pub new_token : ℕ → String
  pub csrf : String → String → String
  pub lower : String → String
  pub upper : String → String
  pub now_text : ℕ → String
  pub str_of : Json → String
  pub dumps : Json → String
  pub int_of : String → Option ℤ
  pub loads : String → Option Json
  pub regex_sub : ℕ → Flags → String → String → String → Result (Option String)
  pub proc_arp : ℕ → Option String
  pub neigh_show : ℕ → Option String
  pub tcp_open : ℕ → String → Bool
  pub route_show : ℕ → Option String
  pub dev_show : ℕ → String → Option String
  pub new_scan : ℕ → String
  pub parse_v6 : String → Option ℕ
  pub parse_mask : String → Option ℕ

-- One line of the audit log.
pub record Entry : Type 0 where
  pub action : String
  pub user : String
  pub detail : String
  pub ip : String
  pub result : String

-- An IPv4 network: the address of the network and the length of its prefix.
pub record Network : Type 0 where
  pub address : ℕ
  pub prefixlen : ℕ

-- `sent`, `audit_log` and `login_failures` have the newest entry first. `nets` is
-- `_LOCAL_NETS_CACHE`, and `scans` is `_active_scans`; `contacts` are the addresses pinged or
-- whose port was tried, `gauges` the numbers of devices and of devices online that a scrape shows.
pub record World : Type 0 where
  pub tick : ℕ
  pub db : Db
  pub sent : List Call
  pub audit_log : List Entry
  pub login_failures : List String
  pub nets : ℕ × List Network
  pub scans : List (String × ScanState)
  pub contacts : List String
  pub gauges : ℕ × ℕ

abbrev pub Exec : Type 0 → Type 0
Exec A = World → Result A × World

module _ {A : Type 0} where
  unfoldable pub pure : A → Exec A
  pure a w = (ok a, w)

  unfoldable pub raise : Exc → Exec A
  raise e w = (err e, w)

  unfoldable pub gets : (World → A) → Exec A
  gets f w = (ok (f w), w)

abbrev pub after : {A B : Type 0} → (A → Exec B) → Result A → World → Result B × World
after f (ok a) w = f a w
after f (err e) w = (err e, w)

infixl 5 ◌>>=◌ ◌>>◌
-- Opening this opens `pure`, `raise` and `gets` too.
unfoldable pub ◌>>=◌ : {A B : Type 0} → Exec A → (A → Exec B) → Exec B
unfolding pure raise gets
◌>>=◌ m f w = let (r, w') = m w in after f r w'

abbrev pub ◌>>◌ : {A B : Type 0} → Exec A → Exec B → Exec B
m >> k = m >>= λ _. k

abbrev pub caught : {A : Type 0} → (Exc → Exec A) → Result A → World → Result A × World
caught handler (ok a) w = (ok a, w)
caught handler (err e) w = handler e w

-- `try: m` with `except` clauses that cover every exception.
unfoldable pub try_except : {A : Type 0} → Exec A → (Exc → Exec A) → Exec A
unfolding pure raise gets
try_except m handler w = let (r, w') = m w in caught handler r w'

abbrev pub raise_if : Bool → Exc → Exec (Unit {0})
raise_if b e = if b then raise e else pure tt

-- A value that may be absent, where its absence raises.
unfoldable pub or_raise : {A : Type 0} → Option A → Exc → Exec A
unfolding pure raise
or_raise none e = raise e
or_raise (some a) e = pure a

-- `except HTTPException: raise` before `except Exception: return a`.
abbrev pub reraise_http : {A : Type 0} → A → Exc → Exec A
reraise_http a (http status detail) = raise (http status detail)
reraise_http a (other text) = pure a

-- A value, or the exception that takes its place.
abbrev pub of_result : {A : Type 0} → Result A → Exec A
of_result (ok a) = pure a
of_result (err e) = raise e

-- `list(executor.map(f, xs))`. The tasks of a pool run in some order; here it is the list's.
unfoldable pub traverse : {A B : Type 0} → (A → Exec B) → List A → Exec (List B)
unfolding ◌>>=◌
traverse f [] = pure []
traverse f (x ∷ xs) = let rest = traverse f xs in do y ← f x; ys ← rest; pure (y ∷ ys)

-- A question to the environment.
unfoldable pub ask : {A : Type 0} → (ℕ → A) → Exec A
ask f w = (ok (f w.tick), record w { tick = suc w.tick })

abbrev pub transacted : {A : Type 0} → Option String → Db × A → World → Result A × World
transacted none (db', a) w = (ok a, record w { db = db' })
transacted (some e) _ w = (err (other e), w)

abbrev pub audited : Entry → World → World
audited e w = record w { audit_log = e ∷ w.audit_log }

unfoldable pub audit : Entry → Exec (Unit {0})
audit e w = (ok tt, audited e w)

-- `_audit(action, detail=…)`, with the defaults of its other arguments.
abbrev pub audit_detail : String → String → Exec (Unit {0})
audit_detail action detail =
    audit (record { action = action; user = "-"; detail = detail; ip = ""; result = "" })

-- Changes the registry of scans.
unfoldable pub put_scans : (List (String × ScanState) → List (String × ScanState)) → Exec (Unit {0})
put_scans f w = (ok tt, record w { scans = f w.scans })

-- Sets the gauges of the metrics.
unfoldable pub set_gauges : ℕ × ℕ → Exec (Unit {0})
set_gauges numbers w = (ok tt, record w { gauges = numbers })

-- `_bm_login_failure`
unfoldable pub bm_login_failure : String → Exec (Unit {0})
bm_login_failure reason w = (ok tt, record w { login_failures = reason ∷ w.login_failures })

module _ (env : Env) where
  -- `time.time()`
  unfoldable pub time : Exec ℕ
  unfolding ask
  time = ask env.micros

  -- `nowts()`: whole seconds
  unfoldable pub nowts : Exec ℕ
  unfolding ask
  nowts = ask λ n. env.micros n / 1000000

  -- `with engine.begin() as conn: …`: the statements take effect together, or one raises and none
  -- does.
  unfoldable pub transact : {A : Type 0} → (Db → Db × A) → Exec A
  unfolding ask
  transact f w = transacted (env.db_fails w.tick) (f w.db) (record w { tick = suc w.tick })

  -- A request of the HTTP client.
  unfoldable pub send : Call → Exec Response
  unfolding ask
  send c w = (env.reply w.tick c, record w { tick = suc w.tick; sent = c ∷ w.sent })
