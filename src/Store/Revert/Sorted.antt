-- ===== src/Store/Revert/Sorted.antt =====
-- Sorting the snapshots of distinct keys changes neither their keys nor which one a key has.
use uni_pay.Prelude.{
  Bool-cases, List, Option, String, [], ap, beq_apart, beq_ne_symm, contains, false, find,
  if◌then◌else◌, inl, inr, length, map, or-eq_false, or_left, or_right, or_swap, refl, some,
  string_eq, suc, ◌==◌, ◌||◌, ◌∙◌, ◌∷◌, ◌≡◌,
}
use uni_pay.Store.Plans.{insert_by, sort_by, str_leb}
use uni_pay.Store.Rows.{has_duplicate}

module _ {ℓ} {A : Type ℓ} (key : A → String) where
  abbrev pub names : List A → List String
  names xs = map key xs

  contains-insert :
      (k : String) (x : A) (xs : List A)
      → contains (names (insert_by key x xs)) k ≡ (key x == k || contains (names xs) k)
  unfolding insert_by
  contains-insert k x [] = refl
  contains-insert k x (y ∷ ys) = elim (Bool-cases (str_leb (key x) (key y))) [
    | inl before ↦ rw before
    | inr after ↦
        rw (after, contains-insert k x ys)
          (or_swap (key y == k) (key x == k) (contains (names ys) k))
  ]

  pub contains-sort_by :
      (k : String) (xs : List A) → contains (names (sort_by key xs)) k ≡ contains (names xs) k
  unfolding sort_by
  contains-sort_by k [] = refl
  contains-sort_by k (x ∷ xs) =
      contains-insert k x (sort_by key xs) ∙ ap (λ b. key x == k || b) (contains-sort_by k xs)

  has_duplicate-insert :
      (x : A) (xs : List A)
      → contains (names xs) (key x) ≡ false
      → has_duplicate (names xs) ≡ false
      → has_duplicate (names (insert_by key x xs)) ≡ false
  unfolding insert_by has_duplicate
  has_duplicate-insert x [] n d = refl
  has_duplicate-insert x (y ∷ ys) n d = elim (Bool-cases (str_leb (key x) (key y))) [
    | inl before ↦ rw before (or-eq_false (key y == key x || contains (names ys) (key x)) _ n d)
    | inr after ↦ rw after (
        or-eq_false (contains (names (insert_by key x ys)) (key y)) _
          (contains-insert (key y) x ys
            ∙ or-eq_false (key x == key y) (contains (names ys) (key y))
                (beq_ne_symm (key y) (key x) (or_left (key y == key x) _ n))
                (or_left (contains (names ys) (key y)) _ d))
          (has_duplicate-insert x ys (or_right (key y == key x) _ n)
            (or_right (contains (names ys) (key y)) _ d)))
  ]

  pub has_duplicate-sort_by :
      (xs : List A)
      → has_duplicate (names xs) ≡ false
      → has_duplicate (names (sort_by key xs)) ≡ false
  unfolding sort_by has_duplicate
  has_duplicate-sort_by [] d = refl
  has_duplicate-sort_by (x ∷ xs) d =
      has_duplicate-insert x (sort_by key xs)
        (contains-sort_by (key x) xs ∙ or_left (contains (names xs) (key x)) _ d)
        (has_duplicate-sort_by xs (or_right (contains (names xs) (key x)) _ d))

  abbrev pub first_of : String → List A → Option A
  first_of k xs = find (λ x. key x == k) xs

  find-insert :
      (k : String) (x : A) (xs : List A)
      → contains (names xs) (key x) ≡ false
      → first_of k (insert_by key x xs) ≡ first_of k (x ∷ xs)
  unfolding insert_by
  find-insert k x [] n = refl
  find-insert k x (y ∷ ys) n = elim (Bool-cases (str_leb (key x) (key y))) [
    | inl before ↦ rw before
    | inr after ↦
        rw (after, find-insert k x ys (or_right (key y == key x) _ n))
          (elim (Bool-cases (key y == k)) [
            | inl here ↦
                let apart : (key x == k) ≡ false =
                  beq_apart (key y) (key x) k here (or_left (key y == key x) _ n) in
                rw (here, apart)
            | inr there ↦ rw there
          ])
  ]

  pub find-sort_by :
      (k : String) (xs : List A)
      → has_duplicate (names xs) ≡ false
      → first_of k (sort_by key xs) ≡ first_of k xs
  unfolding sort_by has_duplicate
  find-sort_by k [] d = refl
  find-sort_by k (x ∷ xs) d =
      find-insert k x (sort_by key xs)
        (contains-sort_by (key x) xs ∙ or_left (contains (names xs) (key x)) _ d)
      ∙ ap (λ o. if key x == k then some x else o)
          (find-sort_by k xs (or_right (contains (names xs) (key x)) _ d))

  length-insert : (x : A) (xs : List A) → length (insert_by key x xs) ≡ suc (length xs)
  unfolding insert_by
  length-insert x [] = refl
  length-insert x (y ∷ ys) = elim (Bool-cases (str_leb (key x) (key y))) [
    | inl before ↦ rw before
    | inr after ↦ rw after (ap suc (length-insert x ys))
  ]

  pub length-sort_by : (xs : List A) → length (sort_by key xs) ≡ length xs
  unfolding sort_by
  length-sort_by [] = refl
  length-sort_by (x ∷ xs) = length-insert x (sort_by key xs) ∙ ap suc (length-sort_by xs)
