-- ===== src/Store/Restore/Order.antt =====
-- The order of the stitched histories of persistence/bitcoin_wallet.rs, `merge_ordered_unique_txids`.
use mathlib.Core.Path.{subst}
use uni_pay.Prelude.{
  Bool-cases, IsUnique, List, Option, [], ap, append_assoc, arith, beq_refl, contains, eq_of_beq,
  err, fail_if_ok, false, if◌then◌else◌, inl, inr, length, length-append, ltb, nat_eq, none, ok,
  ok_injective, refl, some, sym, then_ok, true, ℕ, ◌++◌, ◌+◌, ◌==◌, ◌||◌, ◌∙◌, ◌∷◌, ◌≡◌,
}
use uni_pay.Store.Checks.{checked}
use uni_pay.Store.Restore.{insert_at, merge_from, merge_ordered_unique_txids, position}
use uni_pay.Store.Restore.Within.{
  IsWithin, IsWithin-after, IsWithin-append, IsWithin-nil, IsWithin-refl, insert_beyond, kept,
  position_beyond, position_splits, skipped,
}
use uni_pay.Store.Rows.{ensure_unique_txid_history, has_duplicate}
use uni_pay.Wallet.Types.{Txid, data_corruption}

-- What the merge makes of the part after the cursor, where the cursor stands on a transaction.
abbrev IsStitched : List Txid → List Txid → List Txid → List Txid → Type 0
IsStitched pre post row merged =
    (end : List Txid) × (merged ≡ pre ++ end) × IsWithin row end × IsWithin post end

merge_from-IsStitched :
    (row pre : List Txid) (c : Txid) (post merged : List Txid)
    → IsUnique row
    → contains row c ≡ false
    → merge_from (some (length pre)) (pre ++ c ∷ post) row ≡ ok merged
    → IsStitched (pre ++ c ∷ []) post row merged
unfolding merge_from
merge_from-IsStitched [] pre c post merged u n e = (
  post,
  sym (ok_injective e refl refl) ∙ sym (append_assoc pre (c ∷ []) post),
  IsWithin-nil post,
  IsWithin-refl post,
)
merge_from-IsStitched (x ∷ rest) pre c post merged u n e =
    stepped (λ pre' post' e'. merge_from-IsStitched rest pre' x post' merged u.1 u.0 e')
      (position x (pre ++ c ∷ post)) refl e
  where
    stepped :
        ((pre' post' : List Txid)
          → merge_from (some (length pre')) (pre' ++ x ∷ post') rest ≡ ok merged
          → IsStitched (pre' ++ x ∷ []) post' rest merged)
        → (o : Option ℕ) → position x (pre ++ c ∷ post) ≡ o
        → elim o [
          | none ↦
              merge_from
                (some (length pre + 1))
                (insert_at (length pre + 1) x (pre ++ c ∷ post))
                rest
          | some existing ↦
              if ltb existing (length pre)
              then err data_corruption
              else merge_from (some existing) (pre ++ c ∷ post) rest
        ]
          ≡ ok merged
        → IsStitched (pre ++ c ∷ []) post (x ∷ rest) merged
    stepped continue none at h =
        let front = pre ++ c ∷ [] in
        let size : length pre + 1 ≡ length front = omega (arith, length-append pre (c ∷ [])) in
        let list : insert_at (length pre + 1) x (pre ++ c ∷ post) ≡ front ++ x ∷ post =
          insert_beyond pre c x post ∙ sym (append_assoc pre (c ∷ []) (x ∷ post)) in
        let (end, splits, row_within, post_within) = continue front post (
          ap (λ m. merge_from (some m) (front ++ x ∷ post) rest) (sym size)
          ∙ ap (λ l. merge_from (some (length pre + 1)) l rest) (sym list)
          ∙ h) in
        (x ∷ end, splits ∙ append_assoc front (x ∷ []) end, kept row_within, skipped post_within)
    stepped continue (some existing) at h = elim (Bool-cases (ltb existing (length pre))) [
      | inl before ↦
          let clash : err data_corruption ≡ ok merged =
            ap
              (λ b.
                if b
                then err data_corruption
                else merge_from (some existing) (pre ++ c ∷ post) rest)
              (sym before)
            ∙ h in
          absurd cc
      | inr after ↦
          let h1 : merge_from (some existing) (pre ++ c ∷ post) rest ≡ ok merged =
            ap
              (λ b.
                if b
                then err data_corruption
                else merge_from (some existing) (pre ++ c ∷ post) rest)
              (sym after)
            ∙ h in
          let apart : (c == x) ≡ false = beq_sym_false n in
          let (p1, p2, splits, size) = position_beyond x c pre post existing at apart after in
          let list : pre ++ c ∷ post ≡ (pre ++ c ∷ p1) ++ x ∷ p2 =
            ap (λ l. pre ++ c ∷ l) splits ∙ sym (append_assoc pre (c ∷ p1) (x ∷ p2)) in
          let (end, whole, row_within, post_within) = continue (pre ++ c ∷ p1) p2 (
            ap (λ m. merge_from (some m) ((pre ++ c ∷ p1) ++ x ∷ p2) rest) (sym size)
            ∙ ap (λ l. merge_from (some existing) l rest) (sym list)
            ∙ h1) in
          (
            p1 ++ x ∷ end,
            whole
                ∙ append_assoc (pre ++ c ∷ p1) (x ∷ []) end
                ∙ append_assoc pre (c ∷ p1) (x ∷ end)
                ∙ sym (append_assoc pre (c ∷ []) (p1 ++ x ∷ end)),
            IsWithin-after p1 (kept row_within),
            subst (λ l. IsWithin l (p1 ++ x ∷ end)) (sym splits)
                (IsWithin-append p1 (kept post_within)),
          )
    ]
      where
        beq_sym_false : (x == c || contains rest c) ≡ false → (c == x) ≡ false
        beq_sym_false m = elim (Bool-cases (c == x)) [
          | inl same ↦
              let here : (x == c) ≡ true = ap (λ z. x == z) (eq_of_beq c x same) ∙ beq_refl x in
              absurd (ground arith)
          | inr apart ↦ apart
        ]

has_duplicate-IsUnique : (xs : List Txid) → has_duplicate xs ≡ false → IsUnique xs
unfolding has_duplicate
has_duplicate-IsUnique [] h = tt
has_duplicate-IsUnique (x ∷ xs) h = (ground arith, has_duplicate-IsUnique xs (ground arith))

merge_from_start :
    (row all_txids merged : List Txid)
    → IsUnique row
    → merge_from none all_txids row ≡ ok merged
    → IsWithin row merged × IsWithin all_txids merged
unfolding merge_from
merge_from_start [] all_txids merged u e =
    let same : all_txids ≡ merged = ok_injective e refl refl in
    (IsWithin-nil merged, subst (IsWithin all_txids) same (IsWithin-refl all_txids))
merge_from_start (x ∷ rest) all_txids merged u e = stepped (position x all_txids) refl e
  where
    stepped :
        (o : Option ℕ)
        → position x all_txids ≡ o
        → elim o [
          | none ↦ merge_from (some 0) (insert_at 0 x all_txids) rest
          | some existing ↦ merge_from (some existing) all_txids rest
        ]
          ≡ ok merged
        → IsWithin (x ∷ rest) merged × IsWithin all_txids merged
    stepped none at h =
        let (end, whole, row_within, all_within) =
          merge_from-IsStitched rest [] x all_txids merged u.1 u.0 h in
        (
          subst (IsWithin (x ∷ rest)) (sym whole) (kept row_within),
          subst (IsWithin all_txids) (sym whole) (skipped all_within),
        )
    stepped (some existing) at h =
        let (p1, p2, splits, size) = position_splits x all_txids existing at in
        let (end, whole, row_within, all_within) =
          merge_from-IsStitched rest p1 x p2 merged u.1 u.0 (
            ap (λ m. merge_from (some m) (p1 ++ x ∷ p2) rest) (sym size)
            ∙ ap (λ l. merge_from (some existing) l rest) (sym splits)
            ∙ h) in
        let list : merged ≡ p1 ++ x ∷ end = whole ∙ append_assoc p1 (x ∷ []) end in
        (
          subst (IsWithin (x ∷ rest)) (sym list) (IsWithin-after p1 (kept row_within)),
          subst (λ l. IsWithin l merged) (sym splits)
              (subst (IsWithin (p1 ++ x ∷ p2)) (sym list) (IsWithin-append p1 (kept all_within))),
        )

-- If the merge of a row's history into its lineage's succeeds, then the new history keeps the order of
-- both: each of the two is the new history with some transactions left out.
pub merge_ordered_unique_txids-IsWithin :
    (all_txids row merged : List Txid)
    → merge_ordered_unique_txids all_txids row ≡ ok merged
    → IsWithin row merged × IsWithin all_txids merged
unfolding merge_ordered_unique_txids ensure_unique_txid_history
merge_ordered_unique_txids-IsWithin all_txids row merged e =
    let (checked, run) = then_ok (ensure_unique_txid_history row) _ e in
    merge_from_start row all_txids merged
      (has_duplicate-IsUnique row (fail_if_ok (has_duplicate row) data_corruption checked)) run
