-- ===== src/Store/Transitions.antt =====
-- Each method of the store moves every row along the documented lifecycle.

use mathlib.Core.Path.{subst}
use uni_pay.Prelude.{
  All, All-weaken, Bool-cases, List, Option, Pairwise, Result, String, any, arith, bind_ok,
  contains, each, fail_if, fail_if_ok, false, inl, inr, is_empty, none, ok, refl, some, string_eq,
  then_ok, true, ◌>>=◌, ◌≡◌,
}
use uni_pay.Store.Checks.{checked, left_in, loaded-get_row, right_in}
use uni_pay.Store.Facts.{check_member_ok}
use uni_pay.Store.Lifecycle.{
  IsTransition, to_confirmed-IsTransition, to_pending_with_anchor-IsTransition,
  to_surviving_inflight-IsTransition,
}
use uni_pay.Store.Operations.{
  check_member, confirmation_rows, persist_confirmation, persist_reconciliation, reconcile_rows,
  requeue,
}
use uni_pay.Store.Plans.{
  ConfirmationPersistencePlan, ReconciliationPersistenceKind, ReconciliationPersistencePlan,
  collect_confirmation_keys, collect_reconciliation_keys, confirmed_by, ensure_unique_keys,
  in_mempool_as, no_survivor, validate_confirmation_plan, validate_reconciliation_plan,
}
use uni_pay.Store.Rows.{
  Table, WalletRequestRow, get_row, index_wallet_request_rows, inflight, is_selected,
  load_wallet_request_rows_for_update, to_confirmed, to_pending_with_anchor, to_surviving_inflight,
  update_rows, update_rows_to_confirmed, update_rows_to_pending_with_optional_anchor,
  update_rows_to_surviving_inflight,
}
use uni_pay.Store.Updates.{one_update, two_updates}
use uni_pay.Wallet.Types.{ChainAnchor, ExecutorError, LineageId, data_corruption}

module _ (scope : String) where
  members :
      (lineage : LineageId) (keys some_keys : List String) (t : Table) (rows : Table)
      → All (λ r. is_selected scope keys r ≡ true → get_row rows r.dedupe_key ≡ ok r) t
      → ((k : String) → contains some_keys k ≡ true → contains keys k ≡ true)
      → each (check_member lineage rows) some_keys ≡ ok tt
      → All
          (λ r.
            is_selected scope some_keys r ≡ true
            → (r.status ≡ inflight) × (r.lineage_id ≡ some lineage))
          t
  members lineage keys some_keys t rows found sub passed =
      All-weaken t
        (λ r own picked. let (row, check) = own picked in check_member_ok lineage rows r row check)
        (checked scope keys some_keys t (check_member lineage rows) rows found sub passed)

  -- `requeue` on rows that the first statement left alone.
  requeue_after :
      (keys others : List String) (f : WalletRequestRow → WalletRequestRow)
      (anchor : Option ChainAnchor) (t : Table)
      → any (contains others) keys ≡ false
      → ((r : WalletRequestRow) → is_selected scope others (f r) ≡ is_selected scope others r)
      → All (λ r. is_selected scope keys r ≡ true → IsTransition r (f r)) t
      → All (λ r. is_selected scope others r ≡ true → r.status ≡ inflight) t
      → Pairwise IsTransition t (requeue scope others anchor (update_rows scope keys f t))
  unfolding update_rows_to_pending_with_optional_anchor
  requeue_after keys others f anchor t d same h k = elim (Bool-cases (is_empty others)) [
    | inl none_of ↦ rw none_of (one_update scope keys f t h)
    | inr some_of ↦ rw some_of (
        two_updates scope keys others f (to_pending_with_anchor anchor) t d same h
          (All-weaken t (λ r s picked. to_pending_with_anchor-IsTransition anchor r (s picked)) k))
  ]

  -- The rows that a method has loaded and indexed.
  pub loading :
      {B : Type 0} (keys : List String) (t : Table) (k : Table → Result ExecutorError B) {b : B}
      → (load_wallet_request_rows_for_update scope keys t >>= λ loaded.
          index_wallet_request_rows loaded >>= k)
        ≡ ok b
      → (rows : Table) × All
          (λ r. is_selected scope keys r ≡ true → get_row rows r.dedupe_key ≡ ok r)
          t
        × (k rows ≡ ok b)
  loading keys t k e =
      let (loaded, l, e2) = bind_ok (load_wallet_request_rows_for_update scope keys t) _ e in
      let (rows, i, e3) = bind_ok (index_wallet_request_rows loaded) k e2 in
      (rows, loaded-get_row scope keys t l i, e3)

  -- A confirmation that the store accepts moves every row along the documented lifecycle.
  pub persist_confirmation-IsTransition :
      (p : ConfirmationPersistencePlan) (t t' : Table)
      → persist_confirmation scope p t ≡ ok t'
      → Pairwise IsTransition t t'
  unfolding persist_confirmation validate_confirmation_plan collect_confirmation_keys
      confirmation_rows update_rows_to_confirmed is_selected
  persist_confirmation-IsTransition p t t' e =
      let (valid, e1) = then_ok (validate_confirmation_plan p) _ e in
      let (_, v1) = then_ok (fail_if (is_empty p.confirmed_request_keys) data_corruption) _ valid in
      let (_, v2) = then_ok (ensure_unique_keys p.confirmed_request_keys) _ v1 in
      let (_, v3) = then_ok (ensure_unique_keys p.orphaned_request_keys) _ v2 in
      let (overlap, _) =
        then_ok
          (fail_if (any (contains p.orphaned_request_keys) p.confirmed_request_keys)
            data_corruption)
          _ v3 in
      let (rows, found, e3) = loading (collect_confirmation_keys p) t _ e1 in
      let (won, e4) =
        then_ok (each (check_member p.lineage_id rows) p.confirmed_request_keys) _ e3 in
      let (lost, e5) =
        then_ok (each (check_member p.lineage_id rows) p.orphaned_request_keys) _ e4 in
      let written : confirmation_rows scope p t ≡ t' = ground arith in
      subst (Pairwise IsTransition t) written (
        requeue_after p.confirmed_request_keys p.orphaned_request_keys
          (to_confirmed p.confirmed_txid) p.chain_anchor t
          (fail_if_ok (any (contains p.orphaned_request_keys) p.confirmed_request_keys)
            data_corruption overlap)
          (λ r. refl)
          (All-weaken t
            (λ r m picked.
              let (status, lineage) = m picked in
              to_confirmed-IsTransition p.confirmed_txid r p.lineage_id status lineage)
            (members p.lineage_id (collect_confirmation_keys p) p.confirmed_request_keys t rows
              found (left_in p.confirmed_request_keys p.orphaned_request_keys) won))
          (All-weaken t (λ r m picked. (m picked).0)
            (members p.lineage_id (collect_confirmation_keys p) p.orphaned_request_keys t rows found
              (right_in p.confirmed_request_keys p.orphaned_request_keys) lost)))

  reconcile_rows-IsTransition :
      (kind : ReconciliationPersistenceKind) (p : ReconciliationPersistencePlan) (t : Table)
      → any (contains p.requeued_request_keys) p.survivor_request_keys ≡ false
      → All
          (λ r.
            is_selected scope p.survivor_request_keys r ≡ true
            → (r.status ≡ inflight) × (r.lineage_id ≡ some p.lineage_id))
          t
      → All (λ r. is_selected scope p.requeued_request_keys r ≡ true → r.status ≡ inflight) t
      → Pairwise IsTransition t (reconcile_rows kind scope p t)
  unfolding update_rows_to_confirmed update_rows_to_surviving_inflight
      update_rows_to_pending_with_optional_anchor is_selected
  reconcile_rows-IsTransition (confirmed_by txid) p t d h k =
      requeue_after p.survivor_request_keys p.requeued_request_keys (to_confirmed txid)
        p.chain_anchor t d (λ r. refl)
        (All-weaken t
          (λ r m picked.
            let (status, lineage) = m picked in
            to_confirmed-IsTransition txid r p.lineage_id status lineage)
          h)
        k
  reconcile_rows-IsTransition (in_mempool_as txid) p t d h k =
      requeue_after p.survivor_request_keys p.requeued_request_keys
        (to_surviving_inflight p.lineage_id txid) none t d (λ r. refl)
        (All-weaken t
          (λ r m picked. to_surviving_inflight-IsTransition p.lineage_id txid r (m picked).0) h)
        k
  reconcile_rows-IsTransition no_survivor p t d h k =
      one_update scope p.requeued_request_keys (to_pending_with_anchor none) t
        (All-weaken t (λ r s picked. to_pending_with_anchor-IsTransition none r (s picked)) k)

  -- What an accepted reconciliation writes.
  pub reconciliation_written :
      (p : ReconciliationPersistencePlan) (t t' : Table)
      → persist_reconciliation scope p t ≡ ok t'
      → (any (contains p.requeued_request_keys) p.survivor_request_keys ≡ false)
        × (reconcile_rows p.kind scope p t ≡ t')
  unfolding persist_reconciliation validate_reconciliation_plan
  reconciliation_written p t t' e =
      let (valid, e1) = then_ok (validate_reconciliation_plan p) _ e in
      let (_, v1) = then_ok (ensure_unique_keys p.survivor_request_keys) _ valid in
      let (_, v2) = then_ok (ensure_unique_keys p.requeued_request_keys) _ v1 in
      let (overlap, _) =
        then_ok
          (fail_if (any (contains p.requeued_request_keys) p.survivor_request_keys) data_corruption)
          _ v2 in
      let (rows, found, e3) = loading (collect_reconciliation_keys p) t _ e1 in
      let (kept, e4) =
        then_ok (each (check_member p.lineage_id rows) p.survivor_request_keys) _ e3 in
      let (lost, e5) =
        then_ok (each (check_member p.lineage_id rows) p.requeued_request_keys) _ e4 in
      (
        fail_if_ok (any (contains p.requeued_request_keys) p.survivor_request_keys) data_corruption
            overlap,
        ground arith,
      )

  -- A reconciliation that the store accepts moves every row along the documented lifecycle.
  pub persist_reconciliation-IsTransition :
      (p : ReconciliationPersistencePlan) (t t' : Table)
      → persist_reconciliation scope p t ≡ ok t'
      → Pairwise IsTransition t t'
  unfolding persist_reconciliation collect_reconciliation_keys
  persist_reconciliation-IsTransition p t t' e =
      let (disjoint, written) = reconciliation_written p t t' e in
      let (valid, e1) = then_ok (validate_reconciliation_plan p) _ e in
      let (rows, found, e3) = loading (collect_reconciliation_keys p) t _ e1 in
      let (kept, e4) =
        then_ok (each (check_member p.lineage_id rows) p.survivor_request_keys) _ e3 in
      let (lost, e5) =
        then_ok (each (check_member p.lineage_id rows) p.requeued_request_keys) _ e4 in
      subst (Pairwise IsTransition t) written (
        reconcile_rows-IsTransition p.kind p t disjoint
          (members p.lineage_id (collect_reconciliation_keys p) p.survivor_request_keys t rows found
            (left_in p.survivor_request_keys p.requeued_request_keys) kept)
          (All-weaken t (λ r m picked. (m picked).0)
            (members p.lineage_id (collect_reconciliation_keys p) p.requeued_request_keys t rows
              found (right_in p.survivor_request_keys p.requeued_request_keys) lost)))
