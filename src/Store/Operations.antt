-- ===== src/Store/Operations.antt =====
-- The methods of `PgBitcoinWalletStore` in persistence/bitcoin_wallet.rs that change the table. A
-- method is a transaction: it returns its result and the new table, or an error, and then the table
-- is as it was.
use uni_pay.Prelude.{
  Bool, List, Option, Result, String, [], any, contains, each, err, fail_if, false, if◌then◌else◌,
  is_empty, map, nat_eq, none, not, ok, ok_or, option_eq, some, string_eq, true, ◌&&◌, ◌++◌, ◌==◌,
  ◌>>=◌, ◌>>◌, ◌||◌, ◌∷◌,
}
use uni_pay.Store.Plans.{
  BroadcastPersistenceKind, BroadcastPersistencePlan, ConfirmationPersistencePlan,
  EnqueueWalletRequestResult, PersistedBatchReceipt, PersistedWalletRequestSnapshot,
  ReconciliationPersistenceKind, ReconciliationPersistencePlan, ResolvePendingWalletRequestResult,
  already_confirmed, already_dropped, already_inflight, already_pending, already_submitted,
  cancelled_pending, chained, collect_confirmation_keys, collect_plan_keys,
  collect_reconciliation_keys, confirmed_by, enqueued_pending, fresh, in_mempool_as, no_survivor,
  rbf, snapshot_keys, sort_by, validate_confirmation_plan, validate_persist_plan,
  validate_reconciliation_plan, validate_revert_receipt,
}
use uni_pay.Store.Rows.{
  Table, WalletRequestRow, WalletRequestStatus, confirmed, dropped, ensure_matching_lineage,
  ensure_status, ensure_txid_history_append_is_safe, get_row, index_wallet_request_rows, inflight,
  load_wallet_request_row, load_wallet_request_rows_for_update, pending, update_if,
  update_rows_to_confirmed, update_rows_to_dropped, update_rows_to_inflight, update_rows_to_pending,
  update_rows_to_pending_with_optional_anchor, update_rows_to_surviving_inflight,
}
use uni_pay.Wallet.Types.{
  ChainAnchor, ExecutorError, LineageId, Timestamp, Txid, WalletRequest, data_corruption,
}

unfoldable pub snapshot_from_row : WalletRequestRow → PersistedWalletRequestSnapshot
snapshot_from_row r = record {
  dedupe_key = r.dedupe_key;
  status = r.status;
  lineage_id = r.lineage_id;
  batch_txid = r.batch_txid;
  txid_history = r.txid_history;
  chain_anchor = r.chain_anchor;
}

abbrev pub new_row : String → WalletRequest → Timestamp → WalletRequestRow
new_row scope request now = record {
  scope = scope;
  dedupe_key = request.dedupe_key;
  status = pending;
  lineage_id = none;
  batch_txid = none;
  txid_history = [];
  chain_anchor = none;
  payload = request.kind;
  created_at = now;
}

abbrev pub describe :
    WalletRequestStatus → WalletRequestRow → Result ExecutorError EnqueueWalletRequestResult
describe pending r = ok already_pending
describe inflight r = do
  lineage ← ok_or r.lineage_id data_corruption
  txid ← ok_or r.batch_txid data_corruption
  ok (already_inflight lineage txid)
describe confirmed r = do
  lineage ← ok_or r.lineage_id data_corruption
  txid ← ok_or r.batch_txid data_corruption
  ok (already_confirmed lineage txid)
describe dropped r = ok already_dropped

abbrev pub enqueue_row :
    Option WalletRequestRow
    → String
    → WalletRequest
    → Timestamp
    → Table
    → Result ExecutorError (EnqueueWalletRequestResult × Table)
enqueue_row none scope request now t = ok (enqueued_pending, t ++ new_row scope request now ∷ [])
enqueue_row (some r) scope request now t = describe r.status r >>= λ result. ok (result, t)

-- `now` is the database's clock.
unfoldable pub enqueue :
    String
    → WalletRequest
    → Timestamp
    → Table
    → Result ExecutorError (EnqueueWalletRequestResult × Table)
enqueue scope request now t =
    enqueue_row (load_wallet_request_row scope request.dedupe_key t) scope request now t

abbrev pub resolve_row :
    WalletRequestStatus
    → WalletRequestRow
    → String
    → String
    → Table
    → Result ExecutorError (ResolvePendingWalletRequestResult × Table)
resolve_row pending r scope key t =
    ok (cancelled_pending, update_rows_to_dropped scope (key ∷ []) t)
resolve_row dropped r scope key t =
    ok (cancelled_pending, update_rows_to_dropped scope (key ∷ []) t)
resolve_row inflight r scope key t =
    ok_or r.batch_txid data_corruption >>= λ txid. ok (already_submitted txid, t)
resolve_row confirmed r scope key t =
    ok_or r.batch_txid data_corruption >>= λ txid. ok (already_submitted txid, t)

abbrev pub first_row : Table → Result ExecutorError WalletRequestRow
first_row [] = err data_corruption
first_row (r ∷ _) = ok r

unfoldable pub resolve_pending :
    String → String → Table → Result ExecutorError (ResolvePendingWalletRequestResult × Table)
resolve_pending scope key t = do
  rows ← load_wallet_request_rows_for_update scope (key ∷ []) t
  row ← first_row rows
  resolve_row row.status row scope key t

-- The checks on one included request, by the kind of the broadcast.
unfoldable pub check_pending : Txid → Table → String → Result ExecutorError (Unit {0})
check_pending txid rows key = do
  row ← get_row rows key
  ensure_status pending row
  ensure_txid_history_append_is_safe txid row

abbrev pub check_rbf_status :
    LineageId → WalletRequestStatus → WalletRequestRow → Result ExecutorError (Unit {0})
check_rbf_status lineage pending row = ok tt
check_rbf_status lineage inflight row = ensure_matching_lineage lineage row
check_rbf_status lineage confirmed row = err data_corruption
check_rbf_status lineage dropped row = err data_corruption

unfoldable pub check_rbf : LineageId → Txid → Table → String → Result ExecutorError (Unit {0})
check_rbf lineage txid rows key = do
  row ← get_row rows key
  check_rbf_status lineage row.status row
  ensure_txid_history_append_is_safe txid row

-- The check on a request that must be inflight in the lineage.
unfoldable pub check_member : LineageId → Table → String → Result ExecutorError (Unit {0})
check_member lineage rows key = do
  row ← get_row rows key
  ensure_status inflight row
  ensure_matching_lineage lineage row

unfoldable pub check_broadcast :
    BroadcastPersistenceKind → BroadcastPersistencePlan → Table → Result ExecutorError (Unit {0})
unfolding check_pending check_rbf check_member
check_broadcast rbf p rows =
    each (check_rbf p.lineage_id p.txid rows) p.included_request_keys
    >> each (check_member p.lineage_id rows) p.dropped_request_keys
check_broadcast fresh p rows =
    fail_if (not (is_empty p.dropped_request_keys)) data_corruption
    >> each (check_pending p.txid rows) p.included_request_keys
check_broadcast chained p rows =
    fail_if (not (is_empty p.dropped_request_keys)) data_corruption
    >> each (check_pending p.txid rows) p.included_request_keys

abbrev pub is_rbf : BroadcastPersistenceKind → Bool
is_rbf rbf = true
is_rbf _ = false

abbrev pub snapshots_of : Table → List PersistedWalletRequestSnapshot
snapshots_of rows = sort_by (λ s. s.dedupe_key) (map snapshot_from_row rows)

-- The two UPDATE statements of `persist_broadcast`.
unfoldable pub broadcast_rows : String → BroadcastPersistencePlan → Table → Table
broadcast_rows scope p t =
    let moved = update_rows_to_inflight scope p.included_request_keys p.lineage_id p.txid t in
    if is_rbf p.kind && not (is_empty p.dropped_request_keys)
    then update_rows_to_pending scope p.dropped_request_keys moved
    else moved

unfoldable pub persist_broadcast :
    String → BroadcastPersistencePlan → Table → Result ExecutorError (PersistedBatchReceipt × Table)
persist_broadcast scope p t = do
  validate_persist_plan p
  loaded ← load_wallet_request_rows_for_update scope (collect_plan_keys p) t
  rows ← index_wallet_request_rows loaded
  check_broadcast p.kind p rows
  ok (
    record {
      lineage_id = p.lineage_id;
      txid = p.txid;
      raw_tx_hex = p.raw_tx_hex;
      snapshots = snapshots_of rows;
    },
    broadcast_rows scope p t,
  )

abbrev pub restore_from : PersistedWalletRequestSnapshot → WalletRequestRow → WalletRequestRow
restore_from s r = record r {
  status = s.status;
  lineage_id = s.lineage_id;
  batch_txid = s.batch_txid;
  txid_history = s.txid_history;
  chain_anchor = s.chain_anchor;
}

-- The loop of UPDATE statements in `revert_broadcast`.
unfoldable pub restore_rows : String → List PersistedWalletRequestSnapshot → Table → Table
restore_rows scope [] t = t
restore_rows scope (s ∷ ss) t =
    restore_rows scope ss
      (map (update_if (λ r. r.scope == scope && r.dedupe_key == s.dedupe_key) (restore_from s)) t)

unfoldable pub revert_broadcast :
    String → PersistedBatchReceipt → Table → Result ExecutorError Table
unfolding restore_rows
revert_broadcast scope receipt t = do
  validate_revert_receipt receipt
  rows ← load_wallet_request_rows_for_update scope (snapshot_keys receipt.snapshots) t
  ok (restore_rows scope receipt.snapshots t)

unfoldable pub confirmation_rows : String → ConfirmationPersistencePlan → Table → Table
confirmation_rows scope p t =
    let won = update_rows_to_confirmed scope p.confirmed_request_keys p.confirmed_txid t in
    if is_empty p.orphaned_request_keys
    then won
    else update_rows_to_pending_with_optional_anchor scope p.orphaned_request_keys p.chain_anchor
        won

unfoldable pub persist_confirmation :
    String → ConfirmationPersistencePlan → Table → Result ExecutorError Table
persist_confirmation scope p t = do
  validate_confirmation_plan p
  loaded ← load_wallet_request_rows_for_update scope (collect_confirmation_keys p) t
  rows ← index_wallet_request_rows loaded
  each (check_member p.lineage_id rows) p.confirmed_request_keys
  each (check_member p.lineage_id rows) p.orphaned_request_keys
  ok (confirmation_rows scope p t)

abbrev pub requeue : String → List String → Option ChainAnchor → Table → Table
requeue scope keys anchor t =
    if is_empty keys then t else update_rows_to_pending_with_optional_anchor scope keys anchor t

abbrev pub reconcile_rows :
    ReconciliationPersistenceKind → String → ReconciliationPersistencePlan → Table → Table
reconcile_rows (confirmed_by txid) scope p t =
    requeue scope p.requeued_request_keys p.chain_anchor
      (update_rows_to_confirmed scope p.survivor_request_keys txid t)
reconcile_rows (in_mempool_as txid) scope p t =
    requeue scope p.requeued_request_keys none
      (update_rows_to_surviving_inflight scope p.survivor_request_keys p.lineage_id txid t)
reconcile_rows no_survivor scope p t =
    update_rows_to_pending_with_optional_anchor scope p.requeued_request_keys none t

unfoldable pub persist_reconciliation :
    String → ReconciliationPersistencePlan → Table → Result ExecutorError Table
persist_reconciliation scope p t = do
  validate_reconciliation_plan p
  loaded ← load_wallet_request_rows_for_update scope (collect_reconciliation_keys p) t
  rows ← index_wallet_request_rows loaded
  each (check_member p.lineage_id rows) p.survivor_request_keys
  each (check_member p.lineage_id rows) p.requeued_request_keys
  ok (reconcile_rows p.kind scope p t)

-- `batch_txid = $2 OR txid_history @> [$2]`
unfoldable pub has_submitted_tx : String → Txid → Table → Bool
has_submitted_tx scope txid t =
    any (λ r. r.scope == scope && (r.batch_txid == some txid || contains r.txid_history txid)) t
