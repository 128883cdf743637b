-- ===== src/Sessions/Lifetime.antt =====
-- Looking up a session after the operations that insert and delete rows.
use lvyou_smsweb.World.{Env, World, ok, transact, ◌>>=◌, nowts, try_except, ask}
use lvyou_smsweb.Sessions.{
  issue_token, get_token_record, cleanup_expired_tokens, insert_token, to_records,
}
use lvyou_smsweb.Prelude.{
  String, List, ◌≢◌, Bool, find, ◌≡◌, ◌==◌, filter, none, not, text_comparable, ◌∷◌, is_empty,
  arith, false, eq_iff, suc, refl, [], some, ◌/◌, ◌+◌,
}
use lvyou_smsweb.Db.{AuthToken}

abbrev pub by_token : String → AuthToken → Bool
by_token token row = row.token == token

pub find-delete :
    (token : String) (rows : List AuthToken)
    → find (by_token token) (filter (λ row. not (by_token token row)) rows) ≡ none
find-delete token [] = refl
find-delete token (row ∷ rows) = ground (arith, find-delete token rows)

-- Rows of other tokens are not touched.
pub find-delete_ne :
    (token t : String) (rows : List AuthToken)
    → t ≢ token
    → find (by_token t) (filter (λ row. not (by_token token row)) rows) ≡ find (by_token t) rows
find-delete_ne token t [] ne = refl
find-delete_ne token t (row ∷ rows) ne =
    ground (arith, eq_iff row.token token, eq_iff row.token t, find-delete_ne token t rows ne)

-- The row that the lookup of a token finds while the database answers.
pub get_token_record_lem :
    (env : Env) (token : String) (w : World)
    → env.db_fails w.tick ≡ none
    → is_empty token ≡ false
    → get_token_record env token w
      ≡ (ok (to_records (find (by_token token) w.db.auth_tokens)), record w { tick = suc w.tick })
unfolding get_token_record transact ◌>>=◌ try_except
get_token_record_lem env token w up nonempty = rw (nonempty, up) refl

-- A token that is issued is found, with the name and the expiry of its row.
pub find-issue_token :
    (env : Env) (username token : String) (w w' : World)
    → issue_token env username w ≡ (ok token, w')
    → find (by_token token) w'.db.auth_tokens
      ≡ some (record {
        token = token;
        username = some username;
        exp = some (env.micros (suc (suc (suc w.tick))) / 1000000 + env.config.token_ttl_seconds);
      })
unfolding issue_token cleanup_expired_tokens insert_token nowts transact ask ◌>>=◌ try_except
find-issue_token env username token w w' h = ground (arith, eq_iff token token)
