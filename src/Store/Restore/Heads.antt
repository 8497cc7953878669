-- ===== src/Store/Restore/Heads.antt =====
-- Which tables `restore` of persistence/bitcoin_wallet.rs accepts.
use mathlib.Core.Path.{subst}
use uni_pay.Prelude.{
  All, All-of_filter, All-weaken, Bool, Bool-cases, List, Option, String, [], any, ap, arith,
  beq_refl, bind_ok, collect, contains, eq_of_beq, fail_if_ok, false, filter, if◌then◌else◌, inl,
  inr, is_empty, nat_eq, none, not, ok, ok_or, ok_or_ok, option_eq, refl, some, string_eq, sym,
  then_ok, true, true≢false, ◌&&◌, ◌==◌, ◌||◌, ◌∙◌, ◌∷◌, ◌≡◌, ◌≢◌,
}
use uni_pay.Store.Operations.{persist_reconciliation, reconcile_rows, requeue}
use uni_pay.Store.Plans.{ReconciliationPersistencePlan, in_mempool_as, sort_by}
use uni_pay.Store.Restore.{
  Restoring, ensure_inflight_row_history_targets_head, in_scope, last, restore, restore_inflight,
  restore_inflight_row, restore_pending_row, sort_by_lineage,
}
use uni_pay.Store.Restore.Sorting.{All-sort_by, All-sort_by_lineage}
use uni_pay.Store.Rows.{
  Table, WalletRequestRow, ensure_unique_txid_history, inflight, is_selected, pending,
  to_pending_with_anchor, to_surviving_inflight, update_if, update_rows,
  update_rows_to_pending_with_optional_anchor, update_rows_to_surviving_inflight,
}
use uni_pay.Store.Transitions.{reconciliation_written}
use uni_pay.Store.Updates.{selected_once}
use uni_pay.Wallet.Types.{ChainAnchor, RestoredWalletState, Txid, data_corruption}

-- An inflight row whose history ends at its head.
abbrev pub IsHeadLast : WalletRequestRow → Type 0
IsHeadLast r = last r.txid_history ≡ r.batch_txid

restore_inflight_row-IsHeadLast :
    (state next : Restoring) (r : WalletRequestRow)
    → restore_inflight_row state r ≡ ok next
    → IsHeadLast r
unfolding restore_inflight_row ensure_inflight_row_history_targets_head
restore_inflight_row-IsHeadLast state next r e =
    let (lineage, _, e1) = bind_ok (ok_or r.lineage_id data_corruption) _ e in
    let (head, h, e2) = bind_ok (ok_or r.batch_txid data_corruption) _ e1 in
    let (checks, _) = then_ok (ensure_inflight_row_history_targets_head r.txid_history head) _ e2 in
    let (_, ends) = then_ok (ensure_unique_txid_history r.txid_history) _ checks in
    let same = fail_if_ok (not (last r.txid_history == some head)) data_corruption ends in
    eq_of_beq (last r.txid_history) (some head) (ground arith)
    ∙ sym (ok_or_ok r.batch_txid data_corruption h)

restore_inflight-All :
    (rows : Table) (state final : Restoring)
    → restore_inflight rows state ≡ ok final
    → All IsHeadLast rows
unfolding restore_inflight
restore_inflight-All [] state final e = tt
restore_inflight-All (r ∷ rs) state final e =
    let (next, own, rest) = bind_ok (restore_inflight_row state r) _ e in
    (restore_inflight_row-IsHeadLast state next r own, restore_inflight-All rs next final rest)

-- If `restore` succeeds, then the history of every inflight row of the scope ends at the row's
-- batch txid.
pub restore-IsHeadLast :
    (scope : String) (t : Table) (s : RestoredWalletState)
    → restore scope t ≡ ok s
    → All (λ r. in_scope scope inflight r ≡ true → IsHeadLast r) t
unfolding restore
restore-IsHeadLast scope t s e =
    let chosen = filter (in_scope scope inflight) t in
    let (_, _, e1) =
      bind_ok
        (collect restore_pending_row
          (sort_by (λ r. r.dedupe_key) (filter (in_scope scope pending) t)))
        _ e in
    let (state, e2, _) =
      bind_ok (restore_inflight (sort_by_lineage (sort_by (λ r. r.dedupe_key) chosen)) ([], none)) _
        e1 in
    let sorted =
      All-sort_by_lineage IsHeadLast (sort_by (λ r. r.dedupe_key) chosen)
        (restore_inflight-All _ ([], none) state e2) in
    All-of_filter IsHeadLast (in_scope scope inflight) t
      (All-sort_by (λ r. r.dedupe_key) IsHeadLast chosen sorted)

-- What holds of the updated rows, of the rows that the first statement selects.
module _ (scope : String) (keys others : List String) (f g : WalletRequestRow → WalletRequestRow)
    (Q : WalletRequestRow → Type 0) where
  first_updated :
      (t : Table)
      → any (contains others) keys ≡ false
      → ((r : WalletRequestRow) → is_selected scope others (f r) ≡ is_selected scope others r)
      → All Q (update_rows scope others g (update_rows scope keys f t))
      → All (λ r. is_selected scope keys r ≡ true → Q (f r)) t
  unfolding update_rows
  first_updated [] d same h = tt
  first_updated (r ∷ rs) d same h = (
    λ picked.
        let once = same r ∙ selected_once scope keys others r d picked in
        subst Q
          (ap (λ b. update_if (is_selected scope others) g (if b then f r else r)) picked
            ∙ ap (λ b. if b then g (f r) else f r) once)
          h.0,
    first_updated rs d same h.1,
  )

  only_updated :
      (t : Table)
      → All Q (update_rows scope keys f t)
      → All (λ r. is_selected scope keys r ≡ true → Q (f r)) t
  unfolding update_rows
  only_updated [] h = tt
  only_updated (r ∷ rs) h =
      (λ picked. subst Q (ap (λ b. if b then f r else r) picked) h.0, only_updated rs h.1)

module _ (scope : String) (keys others : List String) (f : WalletRequestRow → WalletRequestRow)
    (Q : WalletRequestRow → Type 0) where
  first_requeued :
      (anchor : Option ChainAnchor) (t : Table)
      → any (contains others) keys ≡ false
      → ((r : WalletRequestRow) → is_selected scope others (f r) ≡ is_selected scope others r)
      → All Q (requeue scope others anchor (update_rows scope keys f t))
      → All (λ r. is_selected scope keys r ≡ true → Q (f r)) t
  unfolding update_rows_to_pending_with_optional_anchor
  first_requeued anchor t d same h = elim (Bool-cases (is_empty others)) [
    | inl none_of ↦ only_updated scope keys others f f Q t (
        subst (All Q)
          (ap
            (λ b.
              if b
              then update_rows scope keys f t
              else update_rows scope others (to_pending_with_anchor anchor)
                  (update_rows scope keys f t))
            none_of)
          h)
    | inr some_of ↦ first_updated scope keys others f (to_pending_with_anchor anchor) Q t d same (
        subst (All Q)
          (ap
            (λ b.
              if b
              then update_rows scope keys f t
              else update_rows scope others (to_pending_with_anchor anchor)
                  (update_rows scope keys f t))
            some_of)
          h)
  ]

any-All {ℓ} :
    {A : Type ℓ} (p : A → Bool) (xs : List A) → any p xs ≡ true → All (λ x. p x ≡ false) xs → ⊥
any-All p [] e h = true≢false (sym e)
any-All p (x ∷ xs) e h = any-All p xs (ap (λ b. b || any p xs) (sym h.0) ∙ e) h.1

-- If the store accepts a reconciliation to a mempool survivor, and the history of some survivor
-- request does not end at the surviving txid, then `restore` fails on the new table.
pub restore-persist_reconciliation :
    (scope : String) (p : ReconciliationPersistencePlan) (txid : Txid) (t t' : Table)
    (s : RestoredWalletState)
    → p.kind ≡ in_mempool_as txid
    → persist_reconciliation scope p t ≡ ok t'
    → any
        (λ r. is_selected scope p.survivor_request_keys r && not (last r.txid_history == some txid))
        t
      ≡ true
    → restore scope t' ≢ ok s
unfolding update_rows_to_surviving_inflight
restore-persist_reconciliation scope p txid t t' s k e some_row restored_ok =
    let (d, written) = reconciliation_written scope p t t' e in
    let rows : reconcile_rows (in_mempool_as txid) scope p t ≡ t' =
      ap (λ kind. reconcile_rows kind scope p t) (sym k) ∙ written in
    any-All
      (λ r. is_selected scope p.survivor_request_keys r && not (last r.txid_history == some txid)) t
      some_row
      (All-weaken t (λ r h. survivor_ends r h)
        (first_requeued scope p.survivor_request_keys p.requeued_request_keys
          (to_surviving_inflight p.lineage_id txid)
          (λ r. in_scope scope inflight r ≡ true → IsHeadLast r) none t d
          (unfold is_selected in λ r. refl)
          (subst (All (λ r. in_scope scope inflight r ≡ true → IsHeadLast r)) (sym rows)
            (restore-IsHeadLast scope t' s restored_ok))))
  where
    survivor_ends :
        (r : WalletRequestRow)
        → (is_selected scope p.survivor_request_keys r ≡ true
            → in_scope scope inflight (to_surviving_inflight p.lineage_id txid r) ≡ true
            → last r.txid_history ≡ some txid)
        → (is_selected scope p.survivor_request_keys r && not (last r.txid_history == some txid))
          ≡ false
    survivor_ends r h = elim (Bool-cases (is_selected scope p.survivor_request_keys r)) [
      | inl picked ↦
          let ends = h picked (unfold is_selected in ground arith) in
          rw (picked, ends, beq_refl txid)
      | inr other ↦ rw other
    ]
