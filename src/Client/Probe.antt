-- ===== src/Client/Probe.antt =====
-- `istargetdevice`: whether a board answers at an address and accepts a user and password.
pub mod Bound
pub mod Kept
use Prim.Native.Nat.{max}
use lvyou_smsweb.Prelude.{
  Bool, String, Option, ℕ, some, false, none, if◌then◌else◌, ◌==◌, [], not, text_comparable, suc,
  zero, number_comparable, true,
}
use lvyou_smsweb.World.{Env, Response, Call, Exec, pure, ◌>>◌, try_except, ◌>>=◌, send}
use lvyou_smsweb.Security.Allow.{ensure_device_ip_allowed}
use lvyou_smsweb.Client.Patterns.{is_in, search_realm}

abbrev pub is_asyncesp : Option String → Bool
is_asyncesp none = false
is_asyncesp (some realm) = realm == "asyncesp"

-- How one attempt ends: with an answer, or to be tried again with the last realm seen.
pub data Attempt : Type 0 where
  settled : Bool → Option String → Attempt
  failed : Option String → Attempt

-- `client.get(f"http://{ip}/mgr")`, with and without digest authentication.
abbrev pub mgr_call : String → Option (String × String) → Call
mgr_call ip auth = record {
  method = "GET";
  ip = ip;
  path = "/mgr";
  params = [];
  content = "";
  form = [];
  auth = auth;
}

module _ (env : Env) (ip user pw : String) where
  -- The second request of an attempt, with the credentials.
  unfoldable pub authenticate : Option String → Exec Attempt
  authenticate realm =
      try_except
        (do
          resp2 ← send env (mgr_call ip (some (user, pw)))
          pure (if resp2.status_code == 200 then settled true realm else failed realm))
        (λ _. pure (failed realm))

  -- What the answer to the first request leads to.
  unfoldable pub judge : Option String → Response → Exec Attempt
  judge last resp =
      if not (resp.status_code == 401)
      then pure (failed last)
      else if not (is_in "Digest" resp.www_authenticate)
      then pure (failed last)
      else if is_asyncesp (search_realm resp.www_authenticate)
      then authenticate (search_realm resp.www_authenticate)
      else pure (settled false (search_realm resp.www_authenticate))

  -- The body of the loop. `judge` raises nothing, so the handler serves the first request alone.
  unfoldable pub attempt : Option String → Exec Attempt
  attempt last =
      try_except (do resp ← send env (mgr_call ip none); judge last resp) (λ _. pure (failed last))

  -- What follows an attempt, where `again` makes the next one.
  unfoldable pub settle :
      Attempt → (Option String → Exec (Bool × Option String)) → Exec (Bool × Option String)
  settle (settled good realm) again = pure (good, realm)
  settle (failed realm) again = again realm

  -- The loop over the attempts that are left. The pause between two of them has no effect here.
  unfoldable pub attempts : ℕ → Option String → Exec (Bool × Option String)
  attempts zero last = pure (false, last)
  attempts (suc n) last = do a ← attempt last; settle a (attempts n)

  unfoldable pub istargetdevice : Exec (Bool × Option String)
  istargetdevice = do ensure_device_ip_allowed env ip; attempts (max 1 env.config.scan_retries) none
