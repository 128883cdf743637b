-- ===== src/Scan/Started.antt =====
-- The request that starts a scan without a network of its own.
use lvyou_smsweb.World.{Env, World, ◌>>=◌, or_raise, ask, put_scans, audit, ok, pure}
use lvyou_smsweb.World.Results.{Yields, Yields-bind}
use lvyou_smsweb.Prelude.{String, Option, Each, ◌≤◌, none, ◌≡◌, refl, some, ◌⊎◌, inl, inr}
use lvyou_smsweb.Scan.Routes.{choose_cidr, submit_scan, scanstart, ScanTask, accept_scan}
use lvyou_smsweb.Security.Commands.Guess.{IsCidr, guess_ipv4_cidr-IsCidr}

module _ (env : Env) where
  abbrev pub HasCidr : ScanTask → Type 0
  HasCidr task = IsCidr env task.cidr

  task-Yields :
      (cidr : String) (group : Option String) (user password : String)
      → IsCidr env cidr
      → Yields HasCidr (accept_scan env cidr group user password)
  unfolding accept_scan ◌>>=◌ or_raise ask put_scans audit pure
  task-Yields cidr group user password (net, e) w = rw e (_, (refl, (net, e)))

choose_cidr-IsCidr :
    (env : Env) (wanted : Option String)
    → (wanted ≡ none) ⊎ (wanted ≡ some "")
    → ((s : String) → Each (λ p. p ≤ 32) (env.parse_mask s))
    → Yields (IsCidr env) (choose_cidr env wanted)
unfolding choose_cidr
choose_cidr-IsCidr env wanted (inl e) mask_bound = rw e (guess_ipv4_cidr-IsCidr env mask_bound)
choose_cidr-IsCidr env wanted (inr e) mask_bound = rw e (guess_ipv4_cidr-IsCidr env mask_bound)

-- A scan that is started without a network, none or the empty text, is never refused: whatever the commands of the system
-- answer, and also if they fail, the request is accepted with a task whose text denotes an IPv4
-- network (where no netmask stands for a prefix of more than 32 bits).
pub scanstart-HasCidr :
    (env : Env) (wanted group : Option String) (user password : String) (w : World)
    → (wanted ≡ none) ⊎ (wanted ≡ some "")
    → ((s : String) → Each (λ p. p ≤ 32) (env.parse_mask s))
    → (task : ScanTask) × (((scanstart env wanted group user password w).0 ≡ ok task)
        × HasCidr env task)
unfolding scanstart submit_scan choose_cidr
scanstart-HasCidr env wanted group user password w empty mask_bound =
    Yields-bind (IsCidr env) (HasCidr env) _ _ (choose_cidr-IsCidr env wanted empty mask_bound)
      (λ cidr h. task-Yields env cidr group _ _ h) w
