-- ===== src/Store/Examples.antt =====
-- Concrete tables on which the theorems about the store apply.

mod Live
use mathlib.Core.Path.{refl}
use uni_pay.Prelude.{List, Option, Pairwise, String, [], err, map, none, ok, some, ◌∷◌, ◌≡◌, ◌≢◌}
use uni_pay.Store.Broadcasts.{persist_broadcast-IsTransition}
use uni_pay.Store.Lifecycle.{IsTransition}
use uni_pay.Store.Operations.{
  broadcast_rows, check_broadcast, check_member, check_rbf, confirmation_rows, persist_broadcast,
  persist_confirmation, persist_reconciliation, revert_broadcast, snapshot_from_row,
}
use uni_pay.Store.Plans.{
  BroadcastPersistencePlan, ConfirmationPersistencePlan, PersistedBatchReceipt,
  PersistedWalletRequestSnapshot, ReconciliationPersistencePlan, collect_confirmation_keys,
  collect_plan_keys, collect_reconciliation_keys, ensure_unique_keys, in_mempool_as, insert_by, rbf,
  sort_by, sort_keys, validate_confirmation_plan, validate_persist_plan,
  validate_reconciliation_plan,
}
use uni_pay.Store.Restore.{
  ensure_inflight_row_history_targets_head, insert_by_lineage, into_request, restore,
  restore_inflight, restore_inflight_row, restore_pending_row, sort_by_lineage,
}
use uni_pay.Store.Restore.Heads.{restore-persist_reconciliation}
use uni_pay.Store.Revert.RoundTrip.{revert_broadcast-persist_broadcast}
use uni_pay.Store.Rows.{
  Table, WalletRequestRow, WalletRequestStatus, confirmed, ensure_matching_lineage, ensure_status,
  ensure_txid_history_append_is_safe, ensure_unique_txid_history, get_row, has_duplicate,
  index_wallet_request_rows, inflight, is_selected, load_wallet_request_rows_for_update, pending,
  update_rows, update_rows_to_confirmed, update_rows_to_inflight, update_rows_to_pending,
  update_rows_to_pending_with_optional_anchor, update_rows_to_surviving_inflight,
}
use uni_pay.Store.Submit.{
  Leaves, persist_and_submit_broadcast, persist_and_submit_broadcast-Leaves, was_rejected,
}
use uni_pay.Store.Transitions.{
  persist_confirmation-IsTransition, persist_reconciliation-IsTransition,
}
use uni_pay.Wallet.Request.{from_parts, is_blank, validate_dedupe_key, validate_kind}
use uni_pay.Wallet.Types.{LineageId, Txid, WalletRequest, data_corruption, send}

abbrev pub row_of :
    String → WalletRequestStatus → Option LineageId → Option Txid → List Txid → WalletRequestRow
row_of key status lineage txid history = record {
  scope = "bitcoin";
  dedupe_key = key;
  status = status;
  lineage_id = lineage;
  batch_txid = txid;
  txid_history = history;
  chain_anchor = none;
  payload = send (record { address = 1; amount = 1000 });
  created_at = 50;
}

abbrev pub waiting : WalletRequestRow
waiting = row_of "a" pending none none []

abbrev pub moving : WalletRequestRow
moving = row_of "b" inflight (some 3) (some 12) (11 ∷ 12 ∷ [])

abbrev pub losing : WalletRequestRow
losing = row_of "c" inflight (some 3) (some 12) (12 ∷ [])

abbrev pub table : Table
table = waiting ∷ moving ∷ losing ∷ []

abbrev pub request_of : String → WalletRequest
request_of key = record { dedupe_key = key; kind = send (record { address = 1; amount = 1000 }) }

-- A replacement that takes a pending request in and drops one of the lineage.
abbrev replacement : BroadcastPersistencePlan
replacement = record {
  kind = rbf;
  lineage_id = 3;
  txid = 13;
  raw_tx_hex = "00";
  included_request_keys = "b" ∷ "a" ∷ [];
  dropped_request_keys = "c" ∷ [];
}

abbrev replaced_receipt : PersistedBatchReceipt
replaced_receipt = record {
  lineage_id = 3;
  txid = 13;
  raw_tx_hex = "00";
  snapshots = map snapshot table;
}
  where
    snapshot : WalletRequestRow → PersistedWalletRequestSnapshot
    snapshot r = record {
      dedupe_key = r.dedupe_key;
      status = r.status;
      lineage_id = r.lineage_id;
      batch_txid = r.batch_txid;
      txid_history = r.txid_history;
      chain_anchor = r.chain_anchor;
    }

abbrev replaced : Table
replaced =
    row_of "a" inflight (some 3) (some 13) (13 ∷ [])
    ∷ row_of "b" inflight (some 3) (some 13) (11 ∷ 12 ∷ 13 ∷ [])
    ∷ row_of "c" pending none none (12 ∷ [])
    ∷ []

replaced_lem : persist_broadcast "bitcoin" replacement table ≡ ok (replaced_receipt, replaced)
unfolding persist_broadcast validate_persist_plan ensure_unique_keys has_duplicate collect_plan_keys
    sort_keys sort_by insert_by load_wallet_request_rows_for_update index_wallet_request_rows
    is_selected check_broadcast check_rbf check_member get_row ensure_status ensure_matching_lineage
    ensure_txid_history_append_is_safe ensure_unique_txid_history broadcast_rows
    update_rows_to_inflight update_rows_to_pending update_rows snapshot_from_row
replaced_lem = refl

revert_broadcast-persist_broadcast_example :
    revert_broadcast "bitcoin" replaced_receipt replaced ≡ ok table
revert_broadcast-persist_broadcast_example =
    revert_broadcast-persist_broadcast "bitcoin" replacement table replaced replaced_receipt
      replaced_lem

persist_broadcast-IsTransition_example : Pairwise IsTransition table replaced
persist_broadcast-IsTransition_example =
    persist_broadcast-IsTransition "bitcoin" replacement table replaced replaced_receipt
      replaced_lem

persist_and_submit_broadcast-Leaves_example :
    Leaves "bitcoin"
      (λ scope receipt. ok was_rejected)
      replacement
      table
      (persist_and_submit_broadcast "bitcoin" (λ scope receipt. ok was_rejected) replacement table)
persist_and_submit_broadcast-Leaves_example =
    persist_and_submit_broadcast-Leaves "bitcoin" (λ scope receipt. ok was_rejected) replacement
      table

-- The head confirms with one of the two requests; the other waits again.
abbrev confirmation : ConfirmationPersistencePlan
confirmation = record {
  lineage_id = 3;
  confirmed_txid = 11;
  confirmed_request_keys = "b" ∷ [];
  orphaned_request_keys = "c" ∷ [];
  chain_anchor = none;
}

abbrev settled : Table
settled =
    waiting
    ∷ row_of "b" confirmed (some 3) (some 11) (11 ∷ 12 ∷ [])
    ∷ row_of "c" pending none none (12 ∷ [])
    ∷ []

settled_lem : persist_confirmation "bitcoin" confirmation table ≡ ok settled
unfolding persist_confirmation validate_confirmation_plan ensure_unique_keys has_duplicate
    collect_confirmation_keys sort_keys sort_by insert_by load_wallet_request_rows_for_update
    index_wallet_request_rows is_selected check_member get_row ensure_status ensure_matching_lineage
    confirmation_rows update_rows_to_confirmed update_rows_to_pending_with_optional_anchor
    update_rows
settled_lem = refl

persist_confirmation-IsTransition_example : Pairwise IsTransition table settled
persist_confirmation-IsTransition_example =
    persist_confirmation-IsTransition "bitcoin" confirmation table settled settled_lem

-- The head has disappeared, and the older transaction survives in the mempool.
abbrev survival : ReconciliationPersistencePlan
survival = record {
  lineage_id = 3;
  kind = in_mempool_as 11;
  survivor_request_keys = "b" ∷ [];
  requeued_request_keys = "c" ∷ [];
  chain_anchor = none;
}

abbrev survived : Table
survived =
    waiting
    ∷ row_of "b" inflight (some 3) (some 11) (11 ∷ 12 ∷ [])
    ∷ row_of "c" pending none none (12 ∷ [])
    ∷ []

survived_lem : persist_reconciliation "bitcoin" survival table ≡ ok survived
unfolding persist_reconciliation validate_reconciliation_plan ensure_unique_keys has_duplicate
    collect_reconciliation_keys sort_keys sort_by insert_by load_wallet_request_rows_for_update
    index_wallet_request_rows is_selected check_member get_row ensure_status ensure_matching_lineage
    update_rows_to_surviving_inflight update_rows_to_pending_with_optional_anchor update_rows
survived_lem = refl

persist_reconciliation-IsTransition_example : Pairwise IsTransition table survived
persist_reconciliation-IsTransition_example =
    persist_reconciliation-IsTransition "bitcoin" survival table survived survived_lem

restore-persist_reconciliation_example :
    restore "bitcoin" survived ≢ ok (record { pending = []; inflight = [] })
restore-persist_reconciliation_example =
    restore-persist_reconciliation "bitcoin" survival 11 table survived
      (record { pending = []; inflight = [] }) refl survived_lem (unfold is_selected in refl)

survived_test : restore "bitcoin" survived ≡ err data_corruption
unfolding restore restore_pending_row restore_inflight restore_inflight_row sort_by sort_by_lineage
    insert_by insert_by_lineage into_request from_parts validate_dedupe_key validate_kind is_blank
    ensure_inflight_row_history_targets_head ensure_unique_txid_history has_duplicate
survived_test = refl
