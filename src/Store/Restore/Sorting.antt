-- ===== src/Store/Restore/Sorting.antt =====
-- Sorting the rows, as `restore` of persistence/bitcoin_wallet.rs does, changes neither which rows
-- there are nor how often.
use mathlib.Core.Path.{subst}
use uni_pay.Prelude.{
  All, Bool-cases, List, String, [], ap, arith, if◌then◌else◌, inl, inr, refl, total, ℕ, ◌+◌, ◌∷◌,
  ◌≡◌,
}
use uni_pay.Store.Plans.{insert_by, sort_by, str_leb}
use uni_pay.Store.Restore.{insert_by_lineage, lineage_leb, sort_by_lineage}
use uni_pay.Store.Rows.{Table, WalletRequestRow}

module _ {ℓ} {A : Type ℓ} (key : A → String) (P : A → Type 0) where
  All-insert_by : (x : A) (xs : List A) → All P (insert_by key x xs) → P x × All P xs
  unfolding insert_by
  All-insert_by x [] h = h
  All-insert_by x (y ∷ ys) h = elim (Bool-cases (str_leb (key x) (key y))) [
    | inl before ↦
        subst (All P) (ap (λ b. if b then x ∷ y ∷ ys else y ∷ insert_by key x ys) before) h
    | inr after ↦
        let rest : All P (y ∷ insert_by key x ys) =
          subst (All P) (ap (λ b. if b then x ∷ y ∷ ys else y ∷ insert_by key x ys) after) h in
        let (own, more) = All-insert_by x ys rest.1 in (own, (rest.0, more))
  ]

  pub All-sort_by : (xs : List A) → All P (sort_by key xs) → All P xs
  unfolding sort_by
  All-sort_by [] h = tt
  All-sort_by (x ∷ xs) h =
      let (own, more) = All-insert_by x (sort_by key xs) h in (own, All-sort_by xs more)

module _ {ℓ} {A : Type ℓ} (key : A → String) (w : A → ℕ) where
  total-insert_by : (x : A) (xs : List A) → total w (insert_by key x xs) ≡ w x + total w xs
  unfolding insert_by
  total-insert_by x [] = refl
  total-insert_by x (y ∷ ys) = elim (Bool-cases (str_leb (key x) (key y))) [
    | inl before ↦ rw before
    | inr after ↦ rw after (omega (arith, total-insert_by x ys))
  ]

  pub total-sort_by : (xs : List A) → total w (sort_by key xs) ≡ total w xs
  unfolding sort_by
  total-sort_by [] = refl
  total-sort_by (x ∷ xs) = omega (arith, total-insert_by x (sort_by key xs), total-sort_by xs)

module _ (P : WalletRequestRow → Type 0) where
  All-insert_by_lineage :
      (r : WalletRequestRow) (xs : Table) → All P (insert_by_lineage r xs) → P r × All P xs
  unfolding insert_by_lineage
  All-insert_by_lineage r [] h = h
  All-insert_by_lineage r (y ∷ ys) h = elim (Bool-cases (lineage_leb r.lineage_id y.lineage_id)) [
    | inl before ↦
        subst (All P) (ap (λ b. if b then r ∷ y ∷ ys else y ∷ insert_by_lineage r ys) before) h
    | inr after ↦
        let rest : All P (y ∷ insert_by_lineage r ys) =
          subst (All P) (ap (λ b. if b then r ∷ y ∷ ys else y ∷ insert_by_lineage r ys) after) h in
        let (own, more) = All-insert_by_lineage r ys rest.1 in (own, (rest.0, more))
  ]

  pub All-sort_by_lineage : (xs : Table) → All P (sort_by_lineage xs) → All P xs
  unfolding sort_by_lineage
  All-sort_by_lineage [] h = tt
  All-sort_by_lineage (x ∷ xs) h =
      let (own, more) = All-insert_by_lineage x (sort_by_lineage xs) h in
      (own, All-sort_by_lineage xs more)

module _ (w : WalletRequestRow → ℕ) where
  total-insert_by_lineage :
      (r : WalletRequestRow) (xs : Table) → total w (insert_by_lineage r xs) ≡ w r + total w xs
  unfolding insert_by_lineage
  total-insert_by_lineage r [] = refl
  total-insert_by_lineage r (y ∷ ys) = elim (Bool-cases (lineage_leb r.lineage_id y.lineage_id)) [
    | inl before ↦ rw before
    | inr after ↦ rw after (omega (arith, total-insert_by_lineage r ys))
  ]

  pub total-sort_by_lineage : (xs : Table) → total w (sort_by_lineage xs) ≡ total w xs
  unfolding sort_by_lineage
  total-sort_by_lineage [] = refl
  total-sort_by_lineage (x ∷ xs) =
      omega (arith, total-insert_by_lineage x (sort_by_lineage xs), total-sort_by_lineage xs)
