-- ===== src/Lib.antt =====
-- A model of the backend of lvyou_smsweb, a web application that manages SMS boards of a local
-- network: it finds boards by scanning, keeps them in SQLite, and lets a user who has logged in send
-- messages, dial, and change the boards' settings. Modelled is the Python code under backend/.
--
-- How the parts interact. A request passes the middleware `token_auth_mw` (backend/main.py), which
-- asks the table of sessions (backend/db.py) and the CSRF header, and then reaches a handler of
-- backend/routes/. Handlers read and change rows, count events of the rate limiter
-- (backend/ratelimit.py), and talk to boards through backend/device_client.py, where every function
-- first asks the allow-list of backend/security.py. A scan runs in the background, writes its state
-- into a registry that a status route reads, and stores what it found by `upsertdevice`. A loop
-- sweeps expired rows and finished scans.
--
-- Files.
--   Prelude, Prelude/       Boolean tests, lists over the native numbers, Python's `str` methods
--   Json                    JSON values with Python's truth and `dict.get`
--   Db                      the tables of backend/db.py as lists of rows
--   World, World/           the state, the environment, exceptions, invariants of actions
--   RateLimit, RateLimit/   backend/ratelimit.py, and `rate_count`, `rate_add`, `rate_reset`,
--                           `cleanup_rate_events` of backend/db.py, the limiters of
--                           backend/main.py
--   Sessions, Sessions/     the token functions of backend/db.py
--   Auth, Auth/             tokens, cookies, credentials and the middleware of backend/main.py,
--                           `client_ip_from_request` of backend/security.py, backend/routes/auth.py
--   Security, Security/     the allow-list, the system commands, the pings and the start-up checks of
--                           backend/security.py, `_configure_cors` of backend/main.py
--   Migrations, Migrations/ `run_migrations` of backend/db.py
--   Metrics, Metrics/       `_wire_prometheus` of backend/main.py
--   Audit, Audit/           backend/audit.py
--   Settings, Settings/     the settings of backend/config.py that are texts or flags
--   Runtime, Runtime/       backend/http_client.py, and `lifespan` of backend/main.py
--   Invariant               what every action of the backend keeps
--   Client, Client/         backend/device_client.py
--   DeviceTable, Values     queries, commits and coercions that the handlers share
--   Devices, Devices/       backend/routes/devices.py; validators, `upsertdevice`, the filter and the
--                           cleanup of stale rows of backend/main.py
--   Boards, Boards/         backend/routes/config.py
--   Scan, Scan/             backend/routes/scan.py, and `_scan_cleanup_loop` of backend/main.py
--   System, System/         the entry points together, behind the middleware
--   Tests/                  concrete runs, and an instance of each theorem
-- Definitions keep the names of the functions, without a leading underscore. A helper stands for a
-- part of a function, mostly a branch that follows a query.
--
-- How code becomes definitions. A function that reads or writes state is an action: it takes the
-- world and gives a result, a value or an exception, and the next world; what was written before an
-- exception stays written. The environment `Env` answers what the code under backend/ does not
-- compute: the clock, the database's failures, the boards, random tokens, HMAC, `json.loads`, the
-- package `regex`, the parsing of IPv6 addresses, case folding, and the texts that the commands of
-- the operating system print. Each question moves a counter on, so that no two answers are tied to
-- each other; nothing is assumed of the answers but where a theorem names it. A block `with engine.begin()` takes effect
-- as a whole or raises. A commit of the ORM session raises if a constraint of the table would break.
-- The tasks of a thread pool run one after the other, in the order of their list; locks, sleeps and
-- timeouts are left out. Identifiers of rows are natural numbers. The attempts
-- of a probe recurse on their number, `strip_tags` on the length of its text, which is enough
-- since every step drops a character, and all else on lists and texts.
--
-- Not modelled: the files under frontend/ and the scripts; static files and the exception handler
-- of backend/main.py, which the framework calls; engine, pragmas and sessions of SQLAlchemy
-- (backend/db.py); the rotation of log files; what the HTTP client, the thread pool and the counters
-- of requests do inside. The settings of backend/config.py that are numbers are fields of `Config`;
-- their parsing from environment variables is left out.
pub mod Prelude
pub mod Json
pub mod Db
pub mod World
pub mod RateLimit
pub mod Sessions
pub mod Auth
mod Tests
pub mod Security
pub mod Client
pub mod DeviceTable
pub mod Invariant
pub mod Migrations
pub mod Metrics
pub mod Audit
pub mod Runtime
pub mod Settings
pub mod Values
pub mod Devices
pub mod Boards
pub mod Scan
pub mod System
