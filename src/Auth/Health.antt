-- ===== src/Auth/Health.antt =====
-- The route /api/health of backend/routes/auth.py.
use lvyou_smsweb.World.{
  Env, Exec, World, Exc, pure, ◌>>=◌, ◌>>◌, try_except, transact, ok, other, Result,
}
use lvyou_smsweb.Db.{Db}
use lvyou_smsweb.Prelude.{
  String, Option, ℕ, none, some, ◌≡◌, suc, Option-cases, inl, inr, refl, ◌⊎◌, is_some, true,
}

pub record Health : Type 0 where
  pub status : String
  pub db : String
  pub version : String
  pub message : String
  pub db_error : Option String
  pub status_code : ℕ

-- The answer, by the name of the class of what the query raised.
abbrev pub health_of : Option String → Health
health_of none = record {
  status = "ok";
  db = "ok";
  version = "5.1";
  message = "Board LAN Hub API is running";
  db_error = none;
  status_code = 200;
}
health_of (some name) = record {
  status = "degraded";
  db = "error";
  version = "5.1";
  message = "Board LAN Hub API is running";
  db_error = some name;
  status_code = 503;
}

-- `SELECT 1`
abbrev pub select_one : Db → Db × Unit {0}
select_one db = (db, tt)

-- `type_name` is `type(exc).__name__`.
unfoldable pub health : Env → (Exc → String) → Exec Health
health env type_name = do
  db_error ← try_except (do transact env select_one; pure none) (λ exc. pure (some (type_name exc)))
  pure (health_of db_error)

-- What the route promises of its result and of the world after it.
abbrev pub IsHonest : Env → World → Result Health × World → Type 0
IsHonest env w (r, w') =
    (w' ≡ record w { tick = suc w.tick })
    × ((reply : Health) × ((r ≡ ok reply)
          × (((env.db_fails w.tick ≡ none)
                × ((reply.status_code ≡ 200) × ((reply.status ≡ "ok") × (reply.db_error ≡ none))))
              ⊎ ((is_some (env.db_fails w.tick) ≡ true)
                  × ((reply.status_code ≡ 503)
                      × ((reply.status ≡ "degraded") × (is_some reply.db_error ≡ true)))))))

-- The health route always answers and changes nothing but the count of questions: if the database
-- answers its query, the status is 200 and "ok" and no error is named; if the query fails, it is
-- 503 and "degraded" and an error is named.
pub health-IsHonest :
    (env : Env) (type_name : Exc → String) (w : World) → IsHonest env w (health env type_name w)
unfolding health transact ◌>>=◌ try_except pure
health-IsHonest env type_name w = elim (Option-cases (env.db_fails w.tick)) [
  | inl up ↦ rw up (refl, (health_of none, (refl, inl (refl, (refl, (refl, refl))))))
  | inr (e, down) ↦
      rw down
        (refl, (health_of (some (type_name (other e))), (refl, inr (refl, (refl, (refl, refl))))))
]
