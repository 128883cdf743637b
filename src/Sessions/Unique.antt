-- ===== src/Sessions/Unique.antt =====
-- The primary key of the table of sessions.
use lvyou_smsweb.Prelude.{
  List, ◌≡◌, Bool, any, true, ◌∷◌, filter, false, not, arith, ◌==◌, [], refl, text_comparable, ◌&&◌,
}
use lvyou_smsweb.Db.{AuthToken}

-- No two rows have the same token: PRIMARY KEY(token).
unfoldable pub has_unique_tokens : List AuthToken → Bool
has_unique_tokens [] = true
has_unique_tokens (row ∷ rows) =
    not (any (λ r. r.token == row.token) rows) && has_unique_tokens rows

any-filter :
    (p q : AuthToken → Bool) (rows : List AuthToken)
    → any p rows ≡ false
    → any p (filter q rows) ≡ false
any-filter p q [] h = refl
any-filter p q (r ∷ rs) h = ground (arith, any-filter p q rs)

any-filter_out :
    (p : AuthToken → Bool) (rows : List AuthToken) → any p (filter (λ r. not (p r)) rows) ≡ false
any-filter_out p [] = refl
any-filter_out p (r ∷ rs) = ground (arith, any-filter_out p rs)

-- Deleting rows keeps the tokens unique.
pub unique-filter :
    (q : AuthToken → Bool) (rows : List AuthToken)
    → has_unique_tokens rows ≡ true
    → has_unique_tokens (filter q rows) ≡ true
unfolding has_unique_tokens
unique-filter q [] h = refl
unique-filter q (r ∷ rs) h =
    ground (arith, unique-filter q rs, any-filter (λ s. s.token == r.token) q rs)

-- INSERT OR REPLACE keeps the tokens unique.
pub unique-replace :
    (row : AuthToken) (rows : List AuthToken)
    → has_unique_tokens rows ≡ true
    → has_unique_tokens (row ∷ filter (λ r. not (r.token == row.token)) rows) ≡ true
unfolding has_unique_tokens
unique-replace row rows h =
    let out = any-filter_out (λ r. r.token == row.token) rows in
    let rest = unique-filter (λ r. not (r.token == row.token)) rows h in ground (arith, out, rest)
