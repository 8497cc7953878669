-- ===== src/Store/Restore/Merged.antt =====
-- The stitching of transaction histories of persistence/bitcoin_wallet.rs, `merge_ordered_unique_txids`.
use mathlib.Core.Path.{subst}
use mathlib.Core.Option
use uni_pay.Prelude.{
  Bool-cases, IsUnique, List, Option, [], ap, arith, contains, eq_of_beq, err, false, if◌then◌else◌,
  inl, inr, is_some, nat_eq, none, ok, ok_injective, or_false, refl, some, suc, sym, then_ok, true,
  zero, ℕ, ◌==◌, ◌||◌, ◌∙◌, ◌∷◌, ◌≡◌,
}
use uni_pay.Store.Restore.{
  after_cursor, insert_at, is_before, merge_from, merge_ordered_unique_txids, position,
}
use uni_pay.Store.Rows.{ensure_unique_txid_history}
use uni_pay.Wallet.Types.{Txid, data_corruption}

contains-insert_at :
    (i : ℕ) (x : Txid) (ys : List Txid) (a : Txid)
    → contains (insert_at i x ys) a ≡ (x == a || contains ys a)
contains-insert_at zero x ys a = refl
contains-insert_at (suc i) x [] a = refl
contains-insert_at (suc i) x (y ∷ ys) a = let rest = contains-insert_at i x ys a in ground arith

IsUnique-insert_at :
    (i : ℕ) (x : Txid) (ys : List Txid)
    → contains ys x ≡ false
    → IsUnique ys
    → IsUnique (insert_at i x ys)
IsUnique-insert_at zero x ys n h = (n, h)
IsUnique-insert_at (suc i) x [] n h = (refl, tt)
IsUnique-insert_at (suc i) x (y ∷ ys) n h =
    (contains-insert_at i x ys y ∙ ground arith, IsUnique-insert_at i x ys (ground arith) h.1)

contains-position : (x : Txid) (ys : List Txid) → contains ys x ≡ is_some (position x ys)
contains-position x [] = refl
contains-position x (y ∷ ys) = elim (Bool-cases (y == x)) [
  | inl here ↦ rw here refl
  | inr apart ↦ rw apart (contains-position x ys ∙ mapped (position x ys))
]
  where
    mapped : (o : Option ℕ) → is_some o ≡ is_some (Option.map suc o)
    mapped none = refl
    mapped (some i) = refl

-- What the merge of a row's history into the history of its lineage gives.
abbrev pub IsMerge : List Txid → List Txid → List Txid → Type 0
IsMerge all_txids row merged =
    IsUnique merged × ((a : Txid) → contains merged a ≡ (contains all_txids a || contains row a))

merge_from-IsMerge :
    (row : List Txid) (cursor : Option ℕ) (all_txids merged : List Txid)
    → IsUnique all_txids
    → merge_from cursor all_txids row ≡ ok merged
    → IsMerge all_txids row merged
unfolding merge_from
merge_from-IsMerge [] cursor all_txids merged u e =
    subst (IsMerge all_txids []) (ok_injective e refl refl)
      (u, λ a. sym (or_false (contains all_txids a)))
merge_from-IsMerge (txid ∷ rest) cursor all_txids merged u e =
    stepped (λ cursor' all' u' e'. merge_from-IsMerge rest cursor' all' merged u' e')
      (position txid all_txids) (contains-position txid all_txids) e
  where
    stepped :
        ((cursor' : Option ℕ) (all' : List Txid)
          → IsUnique all'
          → merge_from cursor' all' rest ≡ ok merged
          → IsMerge all' rest merged)
        → (o : Option ℕ) → contains all_txids txid ≡ is_some o
        → elim o [
          | none ↦
              merge_from
                (some (after_cursor cursor))
                (insert_at (after_cursor cursor) txid all_txids)
                rest
          | some existing ↦
              if is_before existing cursor
              then err data_corruption
              else merge_from (some existing) all_txids rest
        ]
          ≡ ok merged
        → IsMerge all_txids (txid ∷ rest) merged
    stepped continue none p x =
        let at = after_cursor cursor in
        let (unique, same) =
          continue (some at) (insert_at at txid all_txids)
            (IsUnique-insert_at at txid all_txids p u) x in
        (unique, λ a. same a ∙ let own = contains-insert_at at txid all_txids a in ground arith)
    stepped continue (some existing) p x = elim (Bool-cases (is_before existing cursor)) [
      | inl before ↦
          let clash : err data_corruption ≡ ok merged =
            ap (λ b. if b then err data_corruption else merge_from (some existing) all_txids rest)
              (sym before)
            ∙ x in
          absurd cc
      | inr after ↦
          let x1 : merge_from (some existing) all_txids rest ≡ ok merged =
            ap (λ b. if b then err data_corruption else merge_from (some existing) all_txids rest)
              (sym after)
            ∙ x in
          let (unique, same) = continue (some existing) all_txids u x1 in
          (unique, λ a. same a ∙ known a)
    ]
      where
        known :
            (a : Txid)
            → (contains all_txids a || contains rest a)
              ≡ (contains all_txids a || (txid == a || contains rest a))
        known a = elim (Bool-cases (txid == a)) [
          | inl is ↦
              let there : contains all_txids a ≡ true =
                ap (contains all_txids) (sym (eq_of_beq txid a is)) ∙ p in
              rw there
          | inr apart ↦ rw apart
        ]

-- If the merge succeeds on a history without duplicates, then the new history has none either, and it has
-- exactly the transactions of the old history and of the row's.
pub merge_ordered_unique_txids-IsMerge :
    (all_txids row merged : List Txid)
    → IsUnique all_txids
    → merge_ordered_unique_txids all_txids row ≡ ok merged
    → IsMerge all_txids row merged
unfolding merge_ordered_unique_txids
merge_ordered_unique_txids-IsMerge all_txids row merged u e =
    merge_from-IsMerge row none all_txids merged u (then_ok (ensure_unique_txid_history row) _ e).1
