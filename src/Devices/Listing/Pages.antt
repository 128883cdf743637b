-- ===== src/Devices/Listing/Pages.antt =====
-- The pages of the lists of backend/routes/devices.py.
use native.Mathlib.Nat.{mod-lt, div-add-mod', le-div_iff_mul-le}
use lvyou_smsweb.Devices.Listing.{page_of, pages_of}
use lvyou_smsweb.Prelude.{
  ℕ, zero, suc, ◌+◌, ◌-◌, ◌*◌, ◌/◌, ◌%◌, ◌≤◌, ◌<◌, ◌≡◌, refl, ap, ◌∙◌, List, [], ◌∷◌, get_elem?,
  take, drop, length, length-take, arith,
}

cancel : (q : ℕ) → q + 1 - 1 ≡ q
cancel q = omega arith

place : (size i : ℕ) → (i / size + 1 - 1) * size + i % size ≡ i
place size i = ap (λ q. q * size + i % size) (cancel (i / size)) ∙ div-add-mod' i size

page_counted : (size i total : ℕ) → 0 < size → i < total → i / size + 1 ≤ pages_of total size
unfolding pages_of
page_counted size i total h k =
    let e = div-add-mod' i size in
    let le : (i / size + 1) * size ≤ total + size - 1 = omega arith in
    let bound = (le-div_iff_mul-le {x = i / size + 1} {y = total + size - 1} h).1 le in ground arith

module _ {A : Type 0} where
  same_place : (xs : List A) (i j : ℕ) → i ≡ j → get_elem? xs i ≡ get_elem? xs j
  same_place xs i j h = ap (get_elem? xs) h

  get_elem-drop : (n i : ℕ) (xs : List A) → get_elem? (drop n xs) i ≡ get_elem? xs (n + i)
  get_elem-drop zero i xs = same_place xs i (zero + i) (omega arith)
  get_elem-drop (suc n) i [] = refl
  get_elem-drop (suc n) i (x ∷ xs) =
      get_elem-drop n i xs ∙ same_place (x ∷ xs) (suc (n + i)) (suc n + i) (omega arith)

  get_elem-take : (n i : ℕ) (xs : List A) → i < n → get_elem? (take n xs) i ≡ get_elem? xs i
  get_elem-take zero i xs h = ground arith
  get_elem-take (suc n) i [] h = refl
  get_elem-take (suc n) zero (x ∷ xs) h = refl
  get_elem-take (suc n) (suc i) (x ∷ xs) h = get_elem-take n i xs (omega arith)

  -- With pages of a positive size, entry i of the list is entry i % size of page i / size + 1, and
  -- that page is one of those that are counted; it has no more entries than its size.
  pub page_of-covers :
      (size i : ℕ) (xs : List A)
      → 0 < size
      → i < length xs
      → ((get_elem? (page_of (i / size + 1) size xs) (i % size) ≡ get_elem? xs i)
          × (i / size + 1 ≤ pages_of (length xs) size))
        × (length (page_of (i / size + 1) size xs) ≤ size)
  unfolding page_of pages_of
  page_of-covers size i xs h k = (
    (
      get_elem-take size (i % size) _ (mod-lt i h)
          ∙ get_elem-drop ((i / size + 1 - 1) * size) (i % size) xs
          ∙ ap (get_elem? xs) (place size i),
      page_counted size i (length xs) h k,
    ),
    omega (arith, length-take size (drop ((i / size + 1 - 1) * size) xs)),
  )
