-- ===== src/Runtime.antt =====
-- backend/http_client.py: the HTTP client and the thread pool that the whole process shares, and
-- `lifespan` of backend/main.py, which makes them and closes them.
pub mod Shared
use lvyou_smsweb.Prelude.{ℕ, Option, List, Bool, String, some, false, suc, none, ◌∷◌, true}
use lvyou_smsweb.World.{Env, Result, err, ok}
use lvyou_smsweb.Security.Startup.{validate_startup_security}

-- Objects are numbered as they are made. `pinger` is `_SHARED_EXECUTOR` of backend/security.py,
-- `closed` the objects that were closed or shut down, `sweeping` whether the clean-up task runs.
pub record Runtime : Type 0 where
  pub next : ℕ
  pub sync_client : Option ℕ
  pub executor : Option ℕ
  pub pinger : Option ℕ
  pub closed : List ℕ
  pub sweeping : Bool

-- The value of a module variable, or a new object that is put there.
abbrev pub client_or_new : Option ℕ → Runtime → ℕ × Runtime
client_or_new (some c) r = (c, r)
client_or_new none r = (r.next, record r { next = suc r.next; sync_client = some r.next })

unfoldable pub get_sync_client : Runtime → ℕ × Runtime
get_sync_client r = client_or_new r.sync_client r

abbrev pub executor_or_new : Option ℕ → Runtime → ℕ × Runtime
executor_or_new (some e) r = (e, r)
executor_or_new none r = (r.next, record r { next = suc r.next; executor = some r.next })

unfoldable pub get_shared_executor : Runtime → ℕ × Runtime
get_shared_executor r = executor_or_new r.executor r

unfoldable pub init_runtime : Runtime → Runtime
init_runtime r = record r {
  next = suc (suc r.next);
  sync_client = some r.next;
  executor = some (suc r.next);
  pinger = some (suc r.next);
}

abbrev pub close : Option ℕ → List ℕ → List ℕ
close none closed = closed
close (some x) closed = x ∷ closed

-- The variables keep the objects that are closed.
unfoldable pub shutdown_runtime : Runtime → Runtime
shutdown_runtime r = record r { closed = close r.executor (close r.sync_client r.closed) }

-- `lifespan` before its `yield`: the server does not start where the checks raise.
abbrev pub started : Result (List String) → Runtime → Result Runtime
started (err e) r = err e
started (ok warnings) r = ok (record (init_runtime r) { sweeping = true })

unfoldable pub startup : Env → Runtime → Result Runtime
unfolding validate_startup_security init_runtime
startup env r = started (validate_startup_security env) r

-- `lifespan` after its `yield`.
unfoldable pub shutdown : Runtime → Runtime
unfolding shutdown_runtime
shutdown r = shutdown_runtime (record r { sweeping = false })
