-- ===== src/Sessions.antt =====
-- backend/db.py: the session tokens, shared by the server processes through the table auth_tokens.
pub mod Lifetime
pub mod Unique
pub mod Store
use lvyou_smsweb.Prelude.{
  ℕ, ◌+◌, String, Bool, false, not, Option, none, some, List, ◌∷◌, is_empty, or_text, leb, ◌==◌,
  text_comparable, filter, find, if◌then◌else◌,
}
use lvyou_smsweb.Db.{AuthToken, Db}
use lvyou_smsweb.World.{Env, Exec, pure, ◌>>=◌, ◌>>◌, try_except, ask, nowts, transact}

-- `int(exp or 0)`
abbrev pub or_zero : Option ℕ → ℕ
or_zero none = 0
or_zero (some n) = n

-- `exp <= :n`, which a NULL does not satisfy.
abbrev pub is_expired : ℕ → AuthToken → Bool
is_expired now row = elim row.exp [ none ↦ false | some exp ↦ leb exp now ]

abbrev pub delete_expired : ℕ → Db → Db × Unit {0}
delete_expired now db =
    (record db { auth_tokens = filter (λ row. not (is_expired now row)) db.auth_tokens }, tt)

abbrev pub delete_where : String → Db → Db × Unit {0}
delete_where token db =
    (record db { auth_tokens = filter (λ row. not (row.token == token)) db.auth_tokens }, tt)

-- `INSERT OR REPLACE`: the token is the primary key.
abbrev pub replace_token : AuthToken → Db → Db × Unit {0}
replace_token row db =
    (record db { auth_tokens = row ∷ filter (λ r. not (r.token == row.token)) db.auth_tokens }, tt)

abbrev pub select_token : String → Db → Db × Option AuthToken
select_token token db = (db, find (λ row. row.token == token) db.auth_tokens)

-- The dict that `get_token_record` returns.
pub record TokenRecord : Type 0 where
  pub username : String
  pub exp : ℕ

abbrev pub to_record : AuthToken → TokenRecord
to_record row = record { username = or_text row.username ""; exp = or_zero row.exp }

abbrev pub to_records : Option AuthToken → Option TokenRecord
to_records none = none
to_records (some row) = some (to_record row)

module _ (env : Env) where
  unfoldable pub cleanup_expired_tokens : Exec (Unit {0})
  cleanup_expired_tokens =
      try_except (do now ← nowts env; transact env (delete_expired now)) (λ _. pure tt)

  unfoldable pub get_token_record : String → Exec (Option TokenRecord)
  get_token_record token =
      if is_empty token
      then pure none
      else try_except (do row ← transact env (select_token token); pure (to_records row))
          (λ _. pure none)

  unfoldable pub insert_token : String → String → ℕ → Exec (Unit {0})
  insert_token token username exp =
      transact env
        (replace_token (record { token = token; username = some username; exp = some exp }))

  unfoldable pub delete_token : String → Exec (Unit {0})
  delete_token token =
      if is_empty token
      then pure tt
      else try_except (transact env (delete_where token)) (λ _. pure tt)

  unfoldable pub issue_token : String → Exec String
  issue_token username = do
    cleanup_expired_tokens
    token ← ask env.new_token
    now ← nowts env
    insert_token token username (now + env.config.token_ttl_seconds)
    pure token
