-- ===== src/Store/Checks.antt =====
-- What the checks before an UPDATE of persistence/bitcoin_wallet.rs have established of the rows
-- that the UPDATE selects.
use mathlib.Core.Path.{subst}
use uni_pay.Prelude.{
  All, All-every, All-of_filter, All-weaken, All-zip, Bool-cases, List, Result, String, [], ap,
  arith, beq_ne_symm, beq_refl, contains, contains-append, each, each_ok, false, filter, if_err,
  if_ok, inl, inr, length, nat_eq, ok, or_swap, or_true, refl, string_eq, sym, true, ◌++◌, ◌==◌,
  ◌||◌, ◌∙◌, ◌∷◌, ◌≡◌,
}
use uni_pay.Store.Plans.{insert_by, sort_by, sort_keys, str_leb}
use uni_pay.Store.Rows.{
  Table, get_row, has_duplicate, index_wallet_request_rows, is_selected, keys_of,
  load_wallet_request_rows_for_update,
}
use uni_pay.Wallet.Types.{ExecutorError, data_corruption}

-- Distinct keys: each row is the one found by its key.
find-keys :
    (rows : Table)
    → has_duplicate (keys_of rows) ≡ false
    → All (λ r. get_row rows r.dedupe_key ≡ ok r) rows
unfolding has_duplicate get_row
find-keys [] h = tt
find-keys (x ∷ xs) h = (
  rw (beq_refl x.dedupe_key),
  All-zip xs (λ r other own. rw (beq_ne_symm r.dedupe_key x.dedupe_key other) own)
      (absent xs (ground arith)) (find-keys xs (ground arith)),
)
  where
    absent :
        (ys : Table)
        → contains (keys_of ys) x.dedupe_key ≡ false
        → All (λ r. (r.dedupe_key == x.dedupe_key) ≡ false) ys
    absent [] n = tt
    absent (y ∷ ys) n = (ground arith, absent ys (ground arith))

contains-insert_by :
    (k : String) (x : String) (xs : List String)
    → contains (insert_by (λ s. s) x xs) k ≡ (x == k || contains xs k)
unfolding insert_by
contains-insert_by k x [] = refl
contains-insert_by k x (y ∷ ys) = elim (Bool-cases (str_leb x y)) [
  | inl before ↦ rw before
  | inr after ↦ rw (after, contains-insert_by k x ys) (or_swap (y == k) (x == k) (contains ys k))
]

pub contains-sort_keys : (k : String) (xs : List String) → contains (sort_keys xs) k ≡ contains xs k
unfolding sort_keys sort_by
contains-sort_keys k [] = refl
contains-sort_keys k (x ∷ xs) =
    contains-insert_by k x (sort_by (λ s. s) xs) ∙ ap (λ b. x == k || b) (contains-sort_keys k xs)

-- A row that the statement selects is found by its key in the loaded rows.
pub loaded-get_row :
    (scope : String) (keys : List String) (t : Table) {loaded rows : Table}
    → load_wallet_request_rows_for_update scope keys t ≡ ok loaded
    → index_wallet_request_rows loaded ≡ ok rows
    → All (λ r. is_selected scope keys r ≡ true → get_row rows r.dedupe_key ≡ ok r) t
unfolding load_wallet_request_rows_for_update index_wallet_request_rows is_selected
loaded-get_row scope [] t l i = All-every t (λ r picked. absurd (ground arith))
loaded-get_row scope (k ∷ ks) t {loaded = loaded} {rows = rows} l i =
    let chosen = filter (is_selected scope (k ∷ ks)) t in
    let first = if_ok (length chosen == length (k ∷ ks)) chosen data_corruption l in
    let (distinct, second) = if_err (has_duplicate (keys_of loaded)) data_corruption loaded i in
    let same : chosen ≡ rows = cc in
    let unique : has_duplicate (keys_of rows) ≡ false =
      ap (λ rs. has_duplicate (keys_of rs)) (sym second) ∙ distinct in
    All-of_filter (λ r. get_row rows r.dedupe_key ≡ ok r) (is_selected scope (k ∷ ks)) t
      (subst (All (λ r. get_row rows r.dedupe_key ≡ ok r)) (sym same) (find-keys rows unique))

-- The checks of a loop over some of the keys hold of the rows with these keys.
pub checked :
    (scope : String) (keys some_keys : List String) (t : Table)
    (check : String → Result ExecutorError (Unit {0})) (rows : Table)
    → All (λ r. is_selected scope keys r ≡ true → get_row rows r.dedupe_key ≡ ok r) t
    → ((k : String) → contains some_keys k ≡ true → contains keys k ≡ true)
    → each check some_keys ≡ ok tt
    → All
        (λ r.
          is_selected scope some_keys r ≡ true
          → (get_row rows r.dedupe_key ≡ ok r) × (check r.dedupe_key ≡ ok tt))
        t
unfolding is_selected
checked scope keys some_keys t check rows found sub passed =
    All-weaken t
      (λ r own picked. (
        own (let inside = sub r.dedupe_key (ground arith) in ground arith),
        each_ok check some_keys passed r.dedupe_key (ground arith),
      ))
      found

-- The loaded keys have both the lists of a plan.
pub left_in :
    (xs ys : List String) (k : String)
    → contains xs k ≡ true
    → contains (sort_keys (xs ++ ys)) k ≡ true
left_in xs ys k h =
    contains-sort_keys k (xs ++ ys) ∙ contains-append xs ys k ∙ ap (λ b. b || contains ys k) h

pub right_in :
    (xs ys : List String) (k : String)
    → contains ys k ≡ true
    → contains (sort_keys (xs ++ ys)) k ≡ true
right_in xs ys k h =
    contains-sort_keys k (xs ++ ys)
    ∙ contains-append xs ys k
    ∙ ap (λ b. contains xs k || b) h
    ∙ or_true (contains xs k)
