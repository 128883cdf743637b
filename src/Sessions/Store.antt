-- ===== src/Sessions/Store.antt =====
-- What the server processes can observe of the table of sessions: a map from tokens to records.
use lvyou_smsweb.World.{Env, Exec, pure, ◌>>=◌, ◌>>◌, transact, nowts, ask, try_except, World, ok}
use lvyou_smsweb.Db.{AuthToken}
use lvyou_smsweb.Prelude.{
  String, ℕ, List, filter, find, Bool, Option, ◌∷◌, if◌then◌else◌, some, ◌≡◌, suc, any, not, ◌==◌,
  [], none, Bool-cases, false, is_empty, text_comparable, true, ◌/◌, inl, arith, refl, inr, subst,
  eq_iff, ◌∙◌, ap, leb,
}
use lvyou_smsweb.Sessions.{
  TokenRecord, insert_token, delete_token, cleanup_expired_tokens, get_token_record, is_expired,
  to_records,
}
use lvyou_smsweb.Sessions.Lifetime.{by_token, find-delete_ne, find-delete}
use lvyou_smsweb.Sessions.Unique.{has_unique_tokens, unique-replace, unique-filter}

-- The calls of the token functions.
pub data Op : Type 0 where
  insert : String → String → ℕ → Op
  delete : String → Op
  cleanup : Op
  lookup : String → Op

-- The answers of the lookups of a run.
unfoldable pub run : Env → List Op → Exec (List (Option TokenRecord))
unfolding ◌>>=◌ insert_token delete_token cleanup_expired_tokens get_token_record
run env [] = pure []
run env (insert token username exp ∷ ops) =
    let rest = run env ops in insert_token env token username exp >> rest
run env (delete token ∷ ops) = let rest = run env ops in delete_token env token >> rest
run env (cleanup ∷ ops) = let rest = run env ops in cleanup_expired_tokens env >> rest
run env (lookup token ∷ ops) =
    let rest = run env ops in
    do found ← get_token_record env token; more ← rest; pure (found ∷ more)

-- The specification: one row for each token, or none.
abbrev pub Store : Type 0
Store = String → Option AuthToken

abbrev pub put : AuthToken → Store → Store
put row f t = if row.token == t then some row else f t

abbrev pub remove : String → Store → Store
remove token f t = if token == t then none else f t

-- A time that is not set never comes.
abbrev pub has_come : Option ℕ → ℕ → Bool
has_come none now = false
has_come (some exp) now = leb exp now

abbrev pub unless_expired : ℕ → Option AuthToken → Option AuthToken
unless_expired now none = none
unless_expired now (some row) = if has_come row.exp now then none else some row

abbrev pub expire : ℕ → Store → Store
expire now f t = unless_expired now (f t)

-- The same calls on the map, at the moments that the clock is asked.
unfoldable pub replay : Env → List Op → ℕ → Store → List (Option TokenRecord)
replay env [] n f = []
replay env (insert token username exp ∷ ops) n f =
    replay env ops (suc n)
      (put (record { token = token; username = some username; exp = some exp }) f)
replay env (delete token ∷ ops) n f =
    if is_empty token then replay env ops n f else replay env ops (suc n) (remove token f)
replay env (cleanup ∷ ops) n f = replay env ops (suc (suc n)) (expire (env.micros n / 1000000) f)
replay env (lookup token ∷ ops) n f =
    if is_empty token
    then none ∷ replay env ops n f
    else to_records (f token) ∷ replay env ops (suc n) f

abbrev pub view : List AuthToken → Store
view rows t = find (by_token t) rows

-- Each statement on the rows is the operation on the map.
view-put :
    (row : AuthToken) (rows : List AuthToken) (t : String)
    → view (row ∷ filter (λ r. not (r.token == row.token)) rows) t ≡ put row (view rows) t
view-put row rows t = elim (Bool-cases (row.token == t)) [
  | inl same ↦ rw same refl
  | inr other ↦ rw other (find-delete_ne row.token t rows (ground (arith, eq_iff row.token t)))
]

view-remove :
    (token : String) (rows : List AuthToken) (t : String)
    → view (filter (λ r. not (r.token == token)) rows) t ≡ remove token (view rows) t
view-remove token rows t = elim (Bool-cases (token == t)) [
  | inl same ↦
      subst (λ u. view (filter (λ r. not (r.token == token)) rows) u ≡ none)
        ((eq_iff token t).0 same) (find-delete token rows)
      ∙ rw same refl
  | inr other ↦ rw other (find-delete_ne token t rows (ground (arith, eq_iff token t)))
]

find-absent :
    (p q : AuthToken → Bool) (rows : List AuthToken)
    → any p rows ≡ false
    → find p (filter q rows) ≡ none
find-absent p q [] h = refl
find-absent p q (r ∷ rs) h = ground (arith, find-absent p q rs)

view-expire :
    (now : ℕ) (rows : List AuthToken) (t : String)
    → has_unique_tokens rows ≡ true
    → view (filter (λ r. not (is_expired now r)) rows) t ≡ expire now (view rows) t
unfolding has_unique_tokens
view-expire now [] t h = refl
view-expire now (r ∷ rs) t h =
    let absent : (r.token == t) ≡ true → any (by_token t) rs ≡ false = λ same.
      subst (λ u. any (λ s. s.token == u) rs ≡ false) ((eq_iff r.token t).0 same) (ground arith) in
    elim (Bool-cases (r.token == t)) [
      | inl same ↦
          let gone = find-absent (by_token t) (λ x. not (is_expired now x)) rs (absent same) in
          ground (arith, gone)
      | inr other ↦ let rest = view-expire now rs t (ground arith) in ground (arith, rest)
    ]

module _ (env : Env) (up : (n : ℕ) → env.db_fails n ≡ none) where
  refines :
      (ops : List Op) (w : World) (f : Store)
      → has_unique_tokens w.db.auth_tokens ≡ true
      → ((t : String) → view w.db.auth_tokens t ≡ f t)
      → (run env ops w).0 ≡ ok (replay env ops w.tick f)
  unfolding run replay transact nowts ask pure try_except
  refines [] w f h k = refl
  refines (insert token username exp ∷ ops) w f h k =
      let row : AuthToken = record { token = token; username = some username; exp = some exp } in
      rw (up w.tick) (
        refines ops _ (put row f) (unique-replace row w.db.auth_tokens h) (λ t.
          view-put row w.db.auth_tokens t ∙ ap (λ o. if token == t then some row else o) (k t)))
  refines (delete String.[] ∷ ops) w f h k = refines ops w f h k
  refines (delete (String.◌∷◌ c s) ∷ ops) w f h k =
      let token = String.◌∷◌ c s in
      rw (up w.tick) (
        refines ops _ (remove token f)
          (unique-filter (λ r. not (r.token == token)) w.db.auth_tokens h)
          (λ t.
            view-remove token w.db.auth_tokens t ∙ ap (λ o. if token == t then none else o) (k t)))
  refines (cleanup ∷ ops) w f h k =
      let now = env.micros w.tick / 1000000 in
      rw (up (suc w.tick)) (
        refines ops _ (expire now f)
          (unique-filter (λ r. not (is_expired now r)) w.db.auth_tokens h)
          (λ t. view-expire now w.db.auth_tokens t h ∙ ap (unless_expired now) (k t)))
  refines (lookup String.[] ∷ ops) w f h k = rw (refines ops w f h k) refl
  refines (lookup (String.◌∷◌ c s) ∷ ops) w f h k =
      let token = String.◌∷◌ c s in
      rw (up w.tick, refines ops (record w { tick = suc w.tick }) f h k, k token) refl

-- The table of sessions is a map from tokens to rows: while the database answers and the tokens of
-- the table are unique, any sequence of calls of the token functions gives the answers that the
-- same calls give on a map, in which a login sets one token, a logout removes it, and a clean-up
-- drops the rows whose time has come.
pub run_refines :
    (env : Env) (ops : List Op) (w : World)
    → ((n : ℕ) → env.db_fails n ≡ none)
    → has_unique_tokens w.db.auth_tokens ≡ true
    → (run env ops w).0 ≡ ok (replay env ops w.tick (view w.db.auth_tokens))
run_refines env ops w up h = refines env up ops w (view w.db.auth_tokens) h (λ t. refl)
