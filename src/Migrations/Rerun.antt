-- ===== src/Migrations/Rerun.antt =====
-- What a run of the migrations leaves, also after one that was cut off.
use lvyou_smsweb.Prelude.{
  true, false, inl, inr, List, Bool, any, ℕ, ◌≡◌, if◌then◌else◌, ◌∷◌, All, arith, ◌++◌, refl, ap,
  map, [], Option, none, ◌||◌, String, Bool-cases, suc, eq_iff, ◌∙◌, sym, some, subst,
}
use lvyou_smsweb.Migrations.{
  Alter, Schema, alters, has_column, clear_macs, add_columns, run_migrations, clear_mac, is_column,
  is_blank, failed_or, ensured, next_statement, alter_failure,
}
use lvyou_smsweb.Db.{Device}

abbrev never : ℕ → Option String
never n = none

-- The schema with all of the columns.
unfoldable all_ensured : List Alter → Schema → Schema
all_ensured [] s = s
all_ensured (a ∷ rest) s = all_ensured rest (ensured a s)

abbrev HasAll : List Alter → Schema → Type 0
HasAll cols s = All (λ a. has_column a s ≡ true) cols

any-snoc :
    (p : Alter → Bool) (cs : List Alter) (a : Alter) → any p (cs ++ (a ∷ [])) ≡ any p cs || p a
any-snoc p [] a = ground arith
any-snoc p (c ∷ cs) a = ground (arith, any-snoc p cs a)

has-ensured : (a b : Alter) (s : Schema) → has_column a s ≡ true → has_column a (ensured b s) ≡ true
unfolding ensured
has-ensured a b s h = ground (arith, any-snoc (is_column a) s.columns b)

ensured-has : (a : Alter) (s : Schema) → has_column a (ensured a s) ≡ true
unfolding ensured
ensured-has a s =
    ground (arith, any-snoc (is_column a) s.columns a, eq_iff a.table a.table, eq_iff a.col a.col)

ensured_id : (a : Alter) (s : Schema) → has_column a s ≡ true → ensured a s ≡ s
unfolding ensured
ensured_id a s h = rw h refl

HasAll-ensured :
    (cols : List Alter) (b : Alter) (s : Schema) → HasAll cols s → HasAll cols (ensured b s)
HasAll-ensured [] b s h = tt
HasAll-ensured (a ∷ cols) b s (h, k) = (has-ensured a b s h, HasAll-ensured cols b s k)

has-all_ensured :
    (a : Alter) (cols : List Alter) (s : Schema)
    → has_column a s ≡ true
    → has_column a (all_ensured cols s) ≡ true
unfolding all_ensured
has-all_ensured a [] s h = h
has-all_ensured a (b ∷ cols) s h = has-all_ensured a cols (ensured b s) (has-ensured a b s h)

all_ensured-HasAll : (cols : List Alter) (s : Schema) → HasAll cols (all_ensured cols s)
unfolding all_ensured
all_ensured-HasAll [] s = tt
all_ensured-HasAll (a ∷ cols) s =
    (has-all_ensured a cols (ensured a s) (ensured-has a s), all_ensured-HasAll cols (ensured a s))

-- What has the columns already is left as it is.
all_ensured_id : (cols : List Alter) (s : Schema) → HasAll cols s → all_ensured cols s ≡ s
unfolding all_ensured
all_ensured_id [] s h = refl
all_ensured_id (a ∷ cols) s (h, k) = rw (ensured_id a s h) (all_ensured_id cols s k)

add_columns-never :
    (cols : List Alter) (n : ℕ) (s : Schema)
    → add_columns never cols n s ≡ (none, clear_macs (all_ensured cols s))
unfolding add_columns all_ensured
add_columns-never [] n s = refl
add_columns-never (a ∷ cols) n s =
    no_failure (has_column a s) (add_columns-never cols _ (ensured a s))
  where
    no_failure :
        (found : Bool) {next t : Option String × Schema}
        → next ≡ t
        → failed_or (alter_failure never found (suc n)) s next ≡ t
    no_failure true h = h
    no_failure false h = h

clear_mac_idem : (d : Device) → clear_mac (clear_mac d) ≡ clear_mac d
clear_mac_idem d = elim (Bool-cases (is_blank d.mac)) [
  | inl h ↦ rw h refl
  | inr h ↦ rw h (rw h refl)
]

clear_all_idem : (ds : List Device) → map clear_mac (map clear_mac ds) ≡ map clear_mac ds
clear_all_idem [] = refl
clear_all_idem (d ∷ ds) = cc (clear_mac_idem d, clear_all_idem ds)

clear_macs_idem : (s : Schema) → clear_macs (clear_macs s) ≡ clear_macs s
clear_macs_idem s = ap (λ ds. record s { devices = ds }) (clear_all_idem s.devices)

failed_or-holds :
    (P : Schema → Type 0) (o : Option String) (s : Schema) (next : Option String × Schema)
    → P s
    → P next.1
    → P (failed_or o s next).1
failed_or-holds P none s next h k = k
failed_or-holds P (some e) s next h k = h

module _ (fails : ℕ → Option String) where
  -- A run loses no column, wherever it is cut off.
  has-add_columns :
      (a : Alter) (cols : List Alter) (n : ℕ) (s : Schema)
      → has_column a s ≡ true
      → has_column a (add_columns fails cols n s).1 ≡ true
  unfolding add_columns
  has-add_columns a [] n s h =
      failed_or-holds (λ t. has_column a t ≡ true) (fails n) s (none, clear_macs s) h h
  has-add_columns a (b ∷ cols) n s h =
      let P : Schema → Type 0 = λ t. has_column a t ≡ true in
      failed_or-holds P (fails n) s _ h
        (failed_or-holds P _ s _ h (has-add_columns a cols _ (ensured b s) (has-ensured a b s h)))

  -- What a run left behind is completed to what the whole run makes.
  completed :
      (cols : List Alter) (n : ℕ) (s : Schema)
      → clear_macs (all_ensured cols (add_columns fails cols n s).1)
        ≡ clear_macs (all_ensured cols s)
  unfolding add_columns all_ensured
  completed [] n s =
      failed_or-holds (λ t. clear_macs t ≡ clear_macs s) (fails n) s (none, clear_macs s) refl
        (clear_macs_idem s)
  completed (b ∷ cols) n s =
      let P : Schema → Type 0 =
        λ t. clear_macs (all_ensured (b ∷ cols) t) ≡ clear_macs (all_ensured (b ∷ cols) s) in
      let m = next_statement fails (has_column b s) (suc n) in
      let there = has-add_columns b cols m (ensured b s) (ensured-has b s) in
      failed_or-holds P (fails n) s _ refl (
        failed_or-holds P _ s _ refl (
          ap (λ t. clear_macs (all_ensured cols t)) (ensured_id b _ there)
          ∙ completed cols m (ensured b s)))

-- A run that was cut off is repaired by the next one: wherever a statement of the first run raises,
-- a second run on what the first one left ends without an exception in the very tables that one
-- undisturbed run makes. With no failure in the first run: a second run changes nothing.
pub rerun_completes :
    (fails : ℕ → Option String) (s : Schema)
    → run_migrations (λ _. none) (run_migrations fails s).1 ≡ run_migrations (λ _. none) s
unfolding run_migrations
rerun_completes fails s =
    add_columns-never alters 0 _
    ∙ ap (λ t. (none, t)) (completed fails alters 0 s)
    ∙ sym (add_columns-never alters 0 s)

no_mac_is_blank : (ds : List Device) → All (λ d. is_blank d.mac ≡ false) (map clear_mac ds)
no_mac_is_blank [] = tt
no_mac_is_blank (d ∷ ds) = (one (is_blank d.mac) refl, no_mac_is_blank ds)
  where
    one :
        (b : Bool)
        → is_blank d.mac ≡ b
        → is_blank (if b then record d { mac = none } else d).mac ≡ false
    one true h = refl
    one false h = h

-- After an undisturbed run every column of the list is in its table, and no device has an empty
-- MAC address, which the constraint UNIQUE(mac) would let only one of them have.
pub run_migrations-Complete :
    (s : Schema)
    → let t = (run_migrations (λ _. none) s).1 in
      All (λ a. has_column a t ≡ true) alters × All (λ d. is_blank d.mac ≡ false) t.devices
unfolding run_migrations
run_migrations-Complete s =
    let e = sym (add_columns-never alters 0 s) in
    subst
      (λ r.
        All (λ a. has_column a r.1 ≡ true) alters × All (λ d. is_blank d.mac ≡ false) r.1.devices)
      e (all_ensured-HasAll alters s, no_mac_is_blank _)
