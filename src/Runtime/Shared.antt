-- ===== src/Runtime/Shared.antt =====
-- What the parts of the program share while the server runs.
use lvyou_smsweb.Runtime.{
  Runtime, get_sync_client, get_shared_executor, startup, init_runtime, shutdown, shutdown_runtime,
  started,
}
use lvyou_smsweb.Prelude.{
  ℕ, List, suc, ◌≡◌, ◌∷◌, map, [], some, refl, true, ap, false, ◌∙◌, String, arith, subst,
}
use lvyou_smsweb.World.{Env, Result, ok, err}
use lvyou_smsweb.Security.Startup.{validate_startup_security}
use lvyou_smsweb.World.Preserves.{ok-inj}

-- A call of one of the two getters.
pub data Getter : Type 0 where
  client pool : Getter

abbrev pub get : Getter → Runtime → ℕ × Runtime
get client r = get_sync_client r
get pool r = get_shared_executor r

abbrev pub get_all : List Getter → Runtime → List ℕ × Runtime
get_all [] r = ([], r)
get_all (g ∷ gs) r = let (x, r') = get g r in let (xs, r'') = get_all gs r' in (x ∷ xs, r'')

-- The objects that `startup` makes.
abbrev pub made : Runtime → Getter → ℕ
made r client = r.next
made r pool = suc r.next

served :
    (r : Runtime) (c e : ℕ) (gs : List Getter)
    → let t = record r { sync_client = some c; executor = some e } in
      get_all gs t ≡ (map (λ g. elim g [ client ↦ c | pool ↦ e ]) gs, t)
unfolding get_sync_client get_shared_executor
served r c e [] = refl
served r c e (client ∷ gs) = ap (λ p. (c ∷ p.0, p.1)) (served r c e gs)
served r c e (pool ∷ gs) = ap (λ p. (e ∷ p.0, p.1)) (served r c e gs)

-- While the server runs, nothing is made twice.
abbrev pub IsShared : Runtime → Runtime → List Getter → Type 0
IsShared r t gs =
    (get_all gs t ≡ (map (made r) gs, t))
    × (t.pinger ≡ some (made r pool))
    × (t.sweeping ≡ true)
    × ((shutdown t).closed ≡ made r pool ∷ made r client ∷ r.closed)
    × ((shutdown t).sweeping ≡ false)

named :
    (r : Runtime) (gs : List Getter)
    → map (λ g. elim g [ client ↦ r.next | pool ↦ suc r.next ]) gs ≡ map (made r) gs
named r [] = refl
named r (client ∷ gs) = ap (λ xs. r.next ∷ xs) (named r gs)
named r (pool ∷ gs) = ap (λ xs. suc r.next ∷ xs) (named r gs)

served_made :
    (r : Runtime) (gs : List Getter)
    → let t = record (init_runtime r) { sweeping = true } in get_all gs t ≡ (map (made r) gs, t)
unfolding init_runtime
served_made r gs =
    served (record (init_runtime r) { sweeping = true }) r.next (suc r.next) gs
    ∙ ap (λ xs. (xs, record (init_runtime r) { sweeping = true })) (named r gs)

started-IsShared :
    (r t : Runtime) (gs : List Getter) (checked : Result (List String))
    → started checked r ≡ ok t
    → IsShared r t gs
unfolding shutdown shutdown_runtime init_runtime
started-IsShared r t gs (err e) h = ground arith
started-IsShared r t gs (ok warnings) h =
    subst (λ u. IsShared r u gs) (ok-inj h) (served_made r gs, refl, refl, refl, refl)

-- If the server starts, then every part of it uses one client and one pool: whatever order they ask
-- in, all calls of `get_sync_client` and of `get_shared_executor` give the two objects that the
-- start made and make no other, the pings of a scan use the same pool, the clean-up task runs, and
-- the end of the server closes these two objects, no other, and stops the task.
pub startup-IsShared :
    (env : Env) (r t : Runtime) (gs : List Getter) → startup env r ≡ ok t → IsShared r t gs
unfolding startup
startup-IsShared env r t gs h = started-IsShared r t gs (validate_startup_security env) h
