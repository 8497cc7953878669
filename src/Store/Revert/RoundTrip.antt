-- ===== src/Store/Revert/RoundTrip.antt =====
-- A broadcast and its revert in persistence/bitcoin_wallet.rs.
use uni_pay.Prelude.{
  List, String, [], ap, beq_of_eq, bind_ok, fail_if, fail_if_ok, false, filter, if_err, if_ok,
  if_test, is_empty, is_empty-length, length, length-map, map, nat_eq, ok, ok_injective, refl,
  string_eq, sym, then_ok, true≢false, ◌==◌, ◌∙◌, ◌∷◌, ◌≡◌,
}
use uni_pay.Store.Checks.{loaded-get_row}
use uni_pay.Store.Operations.{
  broadcast_rows, check_broadcast, persist_broadcast, revert_broadcast, snapshot_from_row,
  snapshots_of,
}
use uni_pay.Store.Plans.{
  BroadcastPersistencePlan, PersistedBatchReceipt, collect_plan_keys, ensure_unique_keys,
  snapshot_keys, validate_persist_plan, validate_revert_receipt,
}
use uni_pay.Store.Revert.{restore_row, restore_rows-map}
use uni_pay.Store.Revert.Sorted.{length-sort_by}
use uni_pay.Store.Revert.Undo.{distinct-snapshots, keys_nonempty, loaded_again, undone}
use uni_pay.Store.Rows.{
  Table, has_duplicate, index_wallet_request_rows, is_selected, keys_of,
  load_wallet_request_rows_for_update,
}
use uni_pay.Wallet.Types.{data_corruption}

loaded_rows :
    (scope : String) (keys : List String) (t : Table) (loaded rows : Table)
    → is_empty keys ≡ false
    → load_wallet_request_rows_for_update scope keys t ≡ ok loaded
    → index_wallet_request_rows loaded ≡ ok rows
    → (filter (is_selected scope keys) t ≡ rows)
      × (has_duplicate (keys_of rows) ≡ false)
      × (length rows ≡ length keys)
unfolding load_wallet_request_rows_for_update index_wallet_request_rows
loaded_rows scope [] t loaded rows n l i = absurd (true≢false n)
loaded_rows scope (k ∷ ks) t loaded rows n l i =
    let chosen = filter (is_selected scope (k ∷ ks)) t in
    let first : chosen ≡ loaded =
      if_ok (length chosen == length (k ∷ ks)) chosen data_corruption l in
    let many : length chosen ≡ length (k ∷ ks) =
      if_test (length chosen) (length (k ∷ ks)) chosen data_corruption l in
    let (distinct, second) = if_err (has_duplicate (keys_of loaded)) data_corruption loaded i in
    (
      first ∙ second,
      ap (λ rs. has_duplicate (keys_of rs)) (sym second) ∙ distinct,
      ap length (sym (first ∙ second)) ∙ many,
    )

load_again :
    (scope : String) (keys : List String) (t : Table)
    → length (filter (is_selected scope keys) t) ≡ length keys
    → (rows : Table) × (load_wallet_request_rows_for_update scope keys t ≡ ok rows)
unfolding load_wallet_request_rows_for_update
load_again scope [] t n = ([], refl)
load_again scope (k ∷ ks) t n = (
  filter (is_selected scope (k ∷ ks)) t,
  rw (beq_of_eq (length (filter (is_selected scope (k ∷ ks)) t)) (length (k ∷ ks)) n),
)

accept_receipt :
    (scope : String) (receipt : PersistedBatchReceipt) (t : Table)
    → is_empty receipt.snapshots ≡ false
    → has_duplicate (snapshot_keys receipt.snapshots) ≡ false
    → length (filter (is_selected scope (snapshot_keys receipt.snapshots)) t)
      ≡ length (snapshot_keys receipt.snapshots)
    → revert_broadcast scope receipt t ≡ ok (map (restore_row scope receipt.snapshots) t)
unfolding revert_broadcast validate_revert_receipt ensure_unique_keys
accept_receipt scope receipt t n d l =
    let (rows, e) = load_again scope (snapshot_keys receipt.snapshots) t l in
    rw (n, d, e) (ap ok (restore_rows-map scope receipt.snapshots t))

-- Undoing a broadcast that the store has accepted, of any kind, succeeds and gives back the table
-- before it, every column of every row.
pub revert_broadcast-persist_broadcast :
    (scope : String) (p : BroadcastPersistencePlan) (t t' : Table) (receipt : PersistedBatchReceipt)
    → persist_broadcast scope p t ≡ ok (receipt, t')
    → revert_broadcast scope receipt t' ≡ ok t
unfolding persist_broadcast validate_persist_plan
revert_broadcast-persist_broadcast scope p t t' receipt e =
    let (valid, e1) = then_ok (validate_persist_plan p) _ e in
    let (nonempty, _) =
      then_ok (fail_if (is_empty p.included_request_keys) data_corruption) _ valid in
    let (loaded, l, e2) =
      bind_ok (load_wallet_request_rows_for_update scope (collect_plan_keys p) t) _ e1 in
    let (rows, i, e3) = bind_ok (index_wallet_request_rows loaded) _ e2 in
    let (passed, e4) = then_ok (check_broadcast p.kind p rows) _ e3 in
    let some_keys =
      keys_nonempty scope p t
        (fail_if_ok (is_empty p.included_request_keys) data_corruption nonempty) in
    let (chosen, distinct, many) =
      loaded_rows scope (collect_plan_keys p) t loaded rows some_keys l i in
    let found = loaded-get_row scope (collect_plan_keys p) t l i in
    let made : PersistedBatchReceipt = record {
      lineage_id = p.lineage_id;
      txid = p.txid;
      raw_tx_hex = p.raw_tx_hex;
      snapshots = snapshots_of rows;
    } in
    let same : (made, broadcast_rows scope p t) ≡ (receipt, t') = ok_injective e4 refl refl in
    ap (λ x. revert_broadcast scope x.0 x.1) (sym same)
    ∙ accept_receipt scope made (broadcast_rows scope p t)
        (is_empty-length (snapshots_of rows) (collect_plan_keys p)
          (length-sort_by (λ s. s.dedupe_key) (map snapshot_from_row rows)
            ∙ length-map snapshot_from_row rows
            ∙ many)
          some_keys)
        (distinct-snapshots scope p t rows chosen distinct found)
        (loaded_again scope p t rows chosen distinct found)
    ∙ ap ok (undone scope p t rows chosen distinct found)
