-- ===== src/Store/Revert/Restored.antt =====
-- How the UPDATE statements of a broadcast change a table, as far as `revert_broadcast` needs it.
use uni_pay.Prelude.{
  All, Bool, Bool-cases, List, Pairwise, Pairwise-refl, String, [], ap, arith, contains, false,
  filter, if◌then◌else◌, inl, inr, length, map, none, refl, some, string_eq, suc, sym, true,
  true≢false, ◌&&◌, ◌==◌, ◌∙◌, ◌∷◌, ◌≡◌,
}
use uni_pay.Store.Operations.{restore_from, snapshot_from_row}
use uni_pay.Store.Plans.{PersistedWalletRequestSnapshot, snapshot_keys}
use uni_pay.Store.Revert.{restore_row, restore_row-other, restore_row_lem, restored, snapshot_of}
use uni_pay.Store.Rows.{Table, WalletRequestRow, has_duplicate, is_selected, update_rows}

-- The columns that no snapshot has, and the rows that a statement does not select, stay.
pub record IsRewrite (scope : String) (keys : List String) (r r' : WalletRequestRow) : Type 0 where
  pub same_scope : r'.scope ≡ r.scope
  pub same_key : r'.dedupe_key ≡ r.dedupe_key
  pub same_payload : r'.payload ≡ r.payload
  pub same_created_at : r'.created_at ≡ r.created_at
  pub outside : is_selected scope keys r ≡ false → r' ≡ r

-- A function that leaves these columns as they are.
abbrev pub Keeps : (WalletRequestRow → WalletRequestRow) → Type 0
Keeps f =
    (r : WalletRequestRow)
    → ((f r).scope ≡ r.scope)
      × ((f r).dedupe_key ≡ r.dedupe_key)
      × ((f r).payload ≡ r.payload)
      × ((f r).created_at ≡ r.created_at)

module _ (scope : String) (keys : List String) where
  pub IsRewrite-refl : (t : Table) → Pairwise (IsRewrite scope keys) t t
  IsRewrite-refl t =
      Pairwise-refl (IsRewrite scope keys)
        (λ r. record {
          same_scope = refl;
          same_key = refl;
          same_payload = refl;
          same_created_at = refl;
          outside = λ _. refl;
        })
        t

  subset_selected :
      (some_keys : List String) (r : WalletRequestRow)
      → ((k : String) → contains some_keys k ≡ true → contains keys k ≡ true)
      → is_selected scope keys r ≡ false
      → is_selected scope some_keys r ≡ false
  unfolding is_selected
  subset_selected some_keys r sub n = elim (Bool-cases (contains some_keys r.dedupe_key)) [
    | inl inside ↦ let more = sub r.dedupe_key inside in ground arith
    | inr absent ↦ ground arith
  ]

  pub update_rows-IsRewrite :
      (some_keys : List String) (f : WalletRequestRow → WalletRequestRow) (t t' : Table)
      → Keeps f
      → ((k : String) → contains some_keys k ≡ true → contains keys k ≡ true)
      → Pairwise (IsRewrite scope keys) t t'
      → Pairwise (IsRewrite scope keys) t (update_rows scope some_keys f t')
  unfolding update_rows
  update_rows-IsRewrite some_keys f [] [] kept sub h = tt
  update_rows-IsRewrite some_keys f [] (x ∷ xs) kept sub h = absurd h
  update_rows-IsRewrite some_keys f (r ∷ rs) [] kept sub h = absurd h
  update_rows-IsRewrite some_keys f (r ∷ rs) (x ∷ xs) kept sub h = (
    elim (Bool-cases (is_selected scope some_keys x)) [
      | inl picked ↦
          let (k0, k1, k2, k3) = kept x in
          rw picked (record {
            same_scope = k0 ∙ h.0.same_scope;
            same_key = k1 ∙ h.0.same_key;
            same_payload = k2 ∙ h.0.same_payload;
            same_created_at = k3 ∙ h.0.same_created_at;
            outside = λ n. absurd (
                true≢false (
                  sym picked
                  ∙ ap (is_selected scope some_keys) (h.0.outside n)
                  ∙ subset_selected some_keys r sub n));
          })
      | inr other ↦ rw other h.0
    ],
    update_rows-IsRewrite some_keys f rs xs kept sub h.1,
  )

  -- Such a change of the table does not change which rows a statement selects.
  pub length-filter-IsRewrite :
      (others : List String) (t t' : Table)
      → Pairwise (IsRewrite scope keys) t t'
      → length (filter (is_selected scope others) t') ≡ length (filter (is_selected scope others) t)
  unfolding is_selected
  length-filter-IsRewrite others [] [] h = refl
  length-filter-IsRewrite others [] (x ∷ xs) h = absurd h
  length-filter-IsRewrite others (r ∷ rs) [] h = absurd h
  length-filter-IsRewrite others (r ∷ rs) (x ∷ xs) h =
      ap
        (λ b. length (
          if b
          then x ∷ filter (is_selected scope others) xs
          else filter (is_selected scope others) xs))
        (ap (λ a. a == scope && contains others x.dedupe_key) h.0.same_scope
          ∙ ap (λ k. r.scope == scope && contains others k) h.0.same_key)
      ∙ length_if (is_selected scope others r) x r _ _ (length-filter-IsRewrite others rs xs h.1)
    where
      length_if :
          (b : Bool) (x r : WalletRequestRow) (xs rs : Table)
          → length xs ≡ length rs
          → length (if b then x ∷ xs else xs) ≡ length (if b then r ∷ rs else rs)
      length_if true x r xs rs e = ap suc e
      length_if false x r xs rs e = e

  restore_from-IsRewrite :
      (r x : WalletRequestRow) → IsRewrite scope keys r x → restore_from (snapshot_from_row r) x ≡ r
  unfolding snapshot_from_row
  restore_from-IsRewrite r x h =
      ap (λ a. record (restore_from (snapshot_from_row r) x) { scope = a }) h.same_scope
      ∙ ap (λ a. record (restore_from (snapshot_from_row r) x) { scope = r.scope; dedupe_key = a })
          h.same_key
      ∙ ap (λ a. record r { payload = a; created_at = x.created_at }) h.same_payload
      ∙ ap (λ a. record r { created_at = a }) h.same_created_at

  restore_one :
      (ss : List PersistedWalletRequestSnapshot) (r x : WalletRequestRow)
      → has_duplicate (snapshot_keys ss) ≡ false
      → (is_selected scope keys r ≡ true → snapshot_of ss r.dedupe_key ≡ some (snapshot_from_row r))
      → ((r.scope == scope) ≡ true
          → is_selected scope keys r ≡ false
          → snapshot_of ss r.dedupe_key ≡ none)
      → IsRewrite scope keys r x
      → restore_row scope ss x ≡ r
  unfolding is_selected
  restore_one ss r x d found absent h = elim (Bool-cases (r.scope == scope)) [
    | inl inside ↦
        restore_row_lem scope ss x d (ap (λ a. a == scope) h.same_scope ∙ inside)
        ∙ ap (λ k. restored (snapshot_of ss k) x) h.same_key
        ∙ elim (Bool-cases (is_selected scope keys r)) [
          | inl picked ↦ ap (λ o. restored o x) (found picked) ∙ restore_from-IsRewrite r x h
          | inr other ↦ ap (λ o. restored o x) (absent inside other) ∙ h.outside other
        ]
    | inr elsewhere ↦
        restore_row-other scope ss x (ap (λ a. a == scope) h.same_scope ∙ elsewhere)
        ∙ h.outside (ground arith)
  ]

  -- Restoring the snapshots of the selected rows gives the rows back.
  pub restore-IsRewrite :
      (ss : List PersistedWalletRequestSnapshot) (t t' : Table)
      → has_duplicate (snapshot_keys ss) ≡ false
      → All
          (λ r.
            is_selected scope keys r ≡ true
            → snapshot_of ss r.dedupe_key ≡ some (snapshot_from_row r))
          t
      → All
          (λ r.
            (r.scope == scope) ≡ true
            → is_selected scope keys r ≡ false
            → snapshot_of ss r.dedupe_key ≡ none)
          t
      → Pairwise (IsRewrite scope keys) t t'
      → map (restore_row scope ss) t' ≡ t
  restore-IsRewrite ss [] [] d found absent h = refl
  restore-IsRewrite ss [] (x ∷ xs) d found absent h = absurd h
  restore-IsRewrite ss (r ∷ rs) [] d found absent h = absurd h
  restore-IsRewrite ss (r ∷ rs) (x ∷ xs) d found absent h =
      ap (λ y. y ∷ map (restore_row scope ss) xs) (restore_one ss r x d found.0 absent.0 h.0)
      ∙ ap (λ l. r ∷ l) (restore-IsRewrite ss rs xs d found.1 absent.1 h.1)
