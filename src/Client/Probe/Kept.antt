-- ===== src/Client/Probe/Kept.antt =====
-- What a probe by `istargetdevice` leaves as it is.
use lvyou_smsweb.World.{Env, Exec, World, Call, Response, send}
use lvyou_smsweb.World.Preserves.{Preserves, preserves_rules, Preserves-bind}
use lvyou_smsweb.Prelude.{String, ℕ, Option, Bool, suc, zero}
use lvyou_smsweb.Client.Probe.{
  attempts, judge, authenticate, settle, Attempt, settled, failed, attempt,
}

-- `P` is kept by every request to an address that `K` holds of.
module _ (env : Env) (P : World → Type 0) (K : String → Type 0)
    (send-Kept : (c : Call) → K c.ip → Preserves P (send env c)) (ip user pw : String) where
  authenticate-Kept :
      (realm : Option String) → K ip → Preserves P (authenticate env ip user pw realm)
  unfolding authenticate
  authenticate-Kept realm h = search (preserves_rules, send-Kept)

  judge-Kept :
      (last : Option String) (resp : Response) → K ip → Preserves P (judge env ip user pw last resp)
  unfolding judge
  judge-Kept last resp h = search (preserves_rules, authenticate-Kept)

  attempt-Kept : (last : Option String) → K ip → Preserves P (attempt env ip user pw last)
  unfolding attempt
  attempt-Kept last h = search (preserves_rules, send-Kept, judge-Kept)

  settle-Kept :
      (a : Attempt) (again : Option String → Exec (Bool × Option String))
      → ((last : Option String) → Preserves P (again last))
      → Preserves P (settle env ip user pw a again)
  unfolding settle
  settle-Kept (settled good realm) again h = search preserves_rules
  settle-Kept (failed realm) again h = h realm

  pub attempts-Kept :
      (n : ℕ) (last : Option String) → K ip → Preserves P (attempts env ip user pw n last)
  unfolding attempts
  attempts-Kept zero last h = search preserves_rules
  attempts-Kept (suc n) last h =
      Preserves-bind _ _ (attempt-Kept last h)
        (λ a. settle-Kept a (attempts env ip user pw n) (λ l. attempts-Kept n l h))
