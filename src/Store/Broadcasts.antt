-- ===== src/Store/Broadcasts.antt =====
-- `persist_broadcast` and `resolve_pending` as transitions of rows.
use mathlib.Core.Path.{subst}
use uni_pay.Prelude.{
  All, All-of_filter, All-weaken, Bool-cases, Pairwise, Pairwise-refl, String, [], any, ap, arith,
  bind_ok, contains, each, fail_if, fail_if_ok, false, filter, if_ok, if_test, if◌then◌else◌, inl,
  inr, is_empty, length, nat_eq, not, ok, ok_or, refl, string_eq, then_ok, true, ◌&&◌, ◌==◌, ◌∙◌,
  ◌∷◌, ◌≡◌, ◌⊎◌,
}
use uni_pay.Store.Checks.{checked, left_in, right_in}
use uni_pay.Store.Facts.{check_member_ok, check_pending_ok, check_rbf_ok}
use uni_pay.Store.Lifecycle.{
  IsTransition, to_dropped-IsTransition, to_inflight-IsTransition,
  to_pending_with_anchor-IsTransition, unchanged,
}
use uni_pay.Store.Operations.{
  broadcast_rows, check_broadcast, check_member, check_pending, check_rbf, first_row, is_rbf,
  persist_broadcast, resolve_pending, resolve_row,
}
use uni_pay.Store.Plans.{
  BroadcastPersistenceKind, BroadcastPersistencePlan, PersistedBatchReceipt,
  ResolvePendingWalletRequestResult, chained, collect_plan_keys, ensure_unique_keys, fresh, rbf,
  validate_persist_plan,
}
use uni_pay.Store.Rows.{
  Table, WalletRequestRow, WalletRequestStatus, confirmed, dropped, get_row, inflight, is_selected,
  load_wallet_request_rows_for_update, pending, to_dropped, to_inflight, to_pending,
  update_rows_to_dropped, update_rows_to_inflight, update_rows_to_pending,
}
use uni_pay.Store.Transitions.{loading}
use uni_pay.Store.Updates.{one_update, two_updates}
use uni_pay.Wallet.Types.{Txid, data_corruption}

to_pending-IsTransition :
    (r : WalletRequestRow) → r.status ≡ inflight → IsTransition r (to_pending r)
to_pending-IsTransition r s = to_pending_with_anchor-IsTransition r.chain_anchor r s

abbrev CanJoin : Txid → WalletRequestRow → Type 0
CanJoin txid r =
    ((r.status ≡ pending) ⊎ (r.status ≡ inflight)) × (contains r.txid_history txid ≡ false)

module _ (scope : String) (p : BroadcastPersistencePlan) (t : Table) (rows : Table) where
  abbrev IsFound : Type 0
  IsFound =
      All (λ r. is_selected scope (collect_plan_keys p) r ≡ true → get_row rows r.dedupe_key ≡ ok r)
        t

  abbrev Joins : Type 0
  Joins = All (λ r. is_selected scope p.included_request_keys r ≡ true → CanJoin p.txid r) t

  abbrev Leaves : Type 0
  Leaves = All (λ r. is_selected scope p.dropped_request_keys r ≡ true → r.status ≡ inflight) t

  pending-Joins : IsFound → each (check_pending p.txid rows) p.included_request_keys ≡ ok tt → Joins
  unfolding collect_plan_keys
  pending-Joins found passed =
      All-weaken t
        (λ r own picked.
          let (row, check) = own picked in
          let (status, new) = check_pending_ok p.txid rows r row check in (inl status, new))
        (checked scope (collect_plan_keys p) p.included_request_keys t (check_pending p.txid rows)
          rows found (left_in p.included_request_keys p.dropped_request_keys) passed)

  rbf-Joins :
      IsFound → each (check_rbf p.lineage_id p.txid rows) p.included_request_keys ≡ ok tt → Joins
  unfolding collect_plan_keys
  rbf-Joins found passed =
      All-weaken t
        (λ r own picked.
          let (row, check) = own picked in check_rbf_ok p.lineage_id p.txid rows r row check)
        (checked scope (collect_plan_keys p) p.included_request_keys t
          (check_rbf p.lineage_id p.txid rows) rows found
          (left_in p.included_request_keys p.dropped_request_keys) passed)

  rbf-Leaves :
      IsFound → each (check_member p.lineage_id rows) p.dropped_request_keys ≡ ok tt → Leaves
  unfolding collect_plan_keys
  rbf-Leaves found passed =
      All-weaken t
        (λ r own picked.
          let (row, check) = own picked in (check_member_ok p.lineage_id rows r row check).0)
        (checked scope (collect_plan_keys p) p.dropped_request_keys t
          (check_member p.lineage_id rows) rows found
          (right_in p.included_request_keys p.dropped_request_keys) passed)

  joined :
      Joins
      → Pairwise IsTransition t
          (update_rows_to_inflight scope p.included_request_keys p.lineage_id p.txid t)
  unfolding update_rows_to_inflight
  joined joins = one_update scope p.included_request_keys (to_inflight p.lineage_id p.txid) t (
      All-weaken t
        (λ r c picked.
          let (status, new) = c picked in to_inflight-IsTransition p.lineage_id p.txid r status new)
        joins)

  rbf_rows-IsTransition :
      any (contains p.dropped_request_keys) p.included_request_keys ≡ false
      → Joins
      → Leaves
      → Pairwise IsTransition t (
          if not (is_empty p.dropped_request_keys)
          then update_rows_to_pending scope p.dropped_request_keys
              (update_rows_to_inflight scope p.included_request_keys p.lineage_id p.txid t)
          else update_rows_to_inflight scope p.included_request_keys p.lineage_id p.txid t)
  rbf_rows-IsTransition d joins leaves = elim (Bool-cases (is_empty p.dropped_request_keys)) [
    | inl none_of ↦ rw none_of (joined joins)
    | inr some_of ↦ rw some_of (
        unfold update_rows_to_pending update_rows_to_inflight is_selected in
        two_updates scope p.included_request_keys p.dropped_request_keys
          (to_inflight p.lineage_id p.txid) to_pending t d (λ r. refl)
          (All-weaken t
            (λ r c picked.
              let (status, new) = c picked in
              to_inflight-IsTransition p.lineage_id p.txid r status new)
            joins)
          (All-weaken t (λ r s picked. to_pending-IsTransition r (s picked)) leaves))
  ]

  broadcast-IsTransition :
      (kind : BroadcastPersistenceKind)
      → IsFound
      → any (contains p.dropped_request_keys) p.included_request_keys ≡ false
      → check_broadcast kind p rows ≡ ok tt
      → Pairwise IsTransition t (
          if is_rbf kind && not (is_empty p.dropped_request_keys)
          then update_rows_to_pending scope p.dropped_request_keys
              (update_rows_to_inflight scope p.included_request_keys p.lineage_id p.txid t)
          else update_rows_to_inflight scope p.included_request_keys p.lineage_id p.txid t)
  unfolding check_broadcast
  broadcast-IsTransition rbf found d passed =
      let (join, leave) =
        then_ok (each (check_rbf p.lineage_id p.txid rows) p.included_request_keys) _ passed in
      rbf_rows-IsTransition d (rbf-Joins found join) (rbf-Leaves found leave)
  broadcast-IsTransition fresh found d passed = joined (
      pending-Joins found
        (then_ok (fail_if (not (is_empty p.dropped_request_keys)) data_corruption) _ passed).1)
  broadcast-IsTransition chained found d passed = joined (
      pending-Joins found
        (then_ok (fail_if (not (is_empty p.dropped_request_keys)) data_corruption) _ passed).1)

pub valid_plan_disjoint :
    (p : BroadcastPersistencePlan)
    → validate_persist_plan p ≡ ok tt
    → any (contains p.dropped_request_keys) p.included_request_keys ≡ false
unfolding validate_persist_plan
valid_plan_disjoint p valid =
    let (_, v1) = then_ok (fail_if (is_empty p.included_request_keys) data_corruption) _ valid in
    let (_, v2) = then_ok (ensure_unique_keys p.included_request_keys) _ v1 in
    let (_, overlap) = then_ok (ensure_unique_keys p.dropped_request_keys) _ v2 in
    fail_if_ok (any (contains p.dropped_request_keys) p.included_request_keys) data_corruption
      overlap

module _ (scope : String) where
  -- A broadcast of any kind that the store accepts moves every row along the documented lifecycle.
  pub persist_broadcast-IsTransition :
      (p : BroadcastPersistencePlan) (t t' : Table) (receipt : PersistedBatchReceipt)
      → persist_broadcast scope p t ≡ ok (receipt, t')
      → Pairwise IsTransition t t'
  unfolding persist_broadcast broadcast_rows
  persist_broadcast-IsTransition p t t' receipt e =
      let (valid, e1) = then_ok (validate_persist_plan p) _ e in
      let (rows, found, e2) = loading scope (collect_plan_keys p) t _ e1 in
      let (passed, e3) = then_ok (check_broadcast p.kind p rows) _ e2 in
      let written : broadcast_rows scope p t ≡ t' = ground arith in
      subst (Pairwise IsTransition t) written
        (broadcast-IsTransition scope p t rows p.kind found (valid_plan_disjoint p valid) passed)

  resolve_row-IsTransition :
      (status : WalletRequestStatus) (r : WalletRequestRow) (key : String) (t t' : Table)
      (result : ResolvePendingWalletRequestResult)
      → r.status ≡ status
      → All (λ x. is_selected scope (key ∷ []) x ≡ true → x ≡ r) t
      → resolve_row status r scope key t ≡ ok (result, t')
      → Pairwise IsTransition t t'
  unfolding update_rows_to_dropped
  resolve_row-IsTransition pending r key t t' result s only e =
      let written : update_rows_to_dropped scope (key ∷ []) t ≡ t' = ground arith in
      subst (Pairwise IsTransition t) written (
        one_update scope (key ∷ []) to_dropped t (
          All-weaken t
            (λ x own picked. to_dropped-IsTransition x (inl (ap (λ y. y.status) (own picked) ∙ s)))
            only))
  resolve_row-IsTransition dropped r key t t' result s only e =
      let written : update_rows_to_dropped scope (key ∷ []) t ≡ t' = ground arith in
      subst (Pairwise IsTransition t) written (
        one_update scope (key ∷ []) to_dropped t (
          All-weaken t
            (λ x own picked. to_dropped-IsTransition x (inr (ap (λ y. y.status) (own picked) ∙ s)))
            only))
  resolve_row-IsTransition inflight r key t t' result s only e =
      let (txid, _, same) = bind_ok (ok_or r.batch_txid data_corruption) _ e in
      let written : t ≡ t' = ground arith in
      subst (Pairwise IsTransition t) written (Pairwise-refl IsTransition unchanged t)
  resolve_row-IsTransition confirmed r key t t' result s only e =
      let (txid, _, same) = bind_ok (ok_or r.batch_txid data_corruption) _ e in
      let written : t ≡ t' = ground arith in
      subst (Pairwise IsTransition t) written (Pairwise-refl IsTransition unchanged t)

  only_row :
      (rows : Table) (r : WalletRequestRow)
      → length rows ≡ 1
      → first_row rows ≡ ok r
      → All (λ x. x ≡ r) rows
  only_row [] r n e = cc
  only_row (x ∷ []) r n e = (ground arith, tt)
  only_row (x ∷ y ∷ ys) r n e = absurd (ground arith)

  -- Resolving a request that the store accepts moves every row along the documented lifecycle.
  pub resolve_pending-IsTransition :
      (key : String) (t t' : Table) (result : ResolvePendingWalletRequestResult)
      → resolve_pending scope key t ≡ ok (result, t')
      → Pairwise IsTransition t t'
  unfolding resolve_pending load_wallet_request_rows_for_update
  resolve_pending-IsTransition key t t' result e =
      let (rows, l, e1) = bind_ok (load_wallet_request_rows_for_update scope (key ∷ []) t) _ e in
      let (r, first, e2) = bind_ok (first_row rows) _ e1 in
      let chosen = filter (is_selected scope (key ∷ [])) t in
      let same : chosen ≡ rows = if_ok (length chosen == 1) chosen data_corruption l in
      let many : length chosen ≡ 1 = if_test (length chosen) 1 chosen data_corruption l in
      resolve_row-IsTransition r.status r key t t' result refl
        (All-of_filter (λ x. x ≡ r) (is_selected scope (key ∷ [])) t
          (only_row chosen r many (ap first_row same ∙ first)))
        e2
