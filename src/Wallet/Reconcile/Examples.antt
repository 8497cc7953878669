-- ===== src/Wallet/Reconcile/Examples.antt =====
-- A lineage of which the older transaction is confirmed.
use uni_pay.Prelude.{
  List, Option, Pairwise, String, [], err, filter, if◌then◌else◌, length, nat_eq, none, ok, refl,
  some, string_eq, ◌==◌, ◌∷◌, ◌≡◌, ◌≢◌, ◌⊎◌,
}
use uni_pay.Store.Lifecycle.{IsTransition}
use uni_pay.Store.Operations.{check_member, persist_reconciliation}
use uni_pay.Store.Plans.{
  collect_reconciliation_keys, ensure_unique_keys, insert_by, sort_by, sort_keys,
  validate_reconciliation_plan,
}
use uni_pay.Store.Rows.{
  Table, WalletRequestRow, WalletRequestStatus, confirmed as is_confirmed, ensure_matching_lineage,
  ensure_status, get_row, has_duplicate, index_wallet_request_rows, inflight, is_selected,
  load_wallet_request_rows_for_update, pending, update_rows, update_rows_to_confirmed,
  update_rows_to_pending_with_optional_anchor,
}
use uni_pay.Wallet.Confirm.{
  HexDecode, extract_chain_anchor, own_outputs, own_script, split_by_history,
}
use uni_pay.Wallet.Confirm.Partition.{Anchors, extract_chain_anchor-Anchors}
use uni_pay.Wallet.Reconcile.{
  ReconciliationObserver, ReconciliationResult, created_at_for_request, partition_surviving_lineage,
  reconcile_candidates, reconcile_missing_lineage, requeued_as_pending, settle_confirmed,
  settle_in_mempool, settle_without_survivor, was_confirmed,
}
use uni_pay.Wallet.Reconcile.Newest.{IsSettled, Verdict, reconcile_missing_lineage-IsSettled}
use uni_pay.Wallet.Runtime.{confirmations_at}
use uni_pay.Wallet.Types.{
  ChainAnchor, EsploraTx, LineageId, LiveLineage, TxVout, Txid, WalletRequest, confirmed, missing,
  send, validation_failed, wallet_requests,
}

abbrev own_output : TxVout
own_output = record { scriptpubkey = "aa"; value = 90000 }

abbrev other_output : TxVout
other_output = record { scriptpubkey = "bb"; value = 1000 }

abbrev decoder : HexDecode
decoder text = if text == "aa" then some (170 ∷ []) else none

abbrev tx : EsploraTx
tx = record { vout = other_output ∷ own_output ∷ []; status = record { block_height = some 100 } }

extract_chain_anchor-Anchors_example :
    ((length (filter (own_script decoder (170 ∷ [])) tx.vout) ≡ 1)
      × ((a : ChainAnchor) × (extract_chain_anchor decoder 11 100 tx (170 ∷ []) ≡ ok a)
          × Anchors decoder 11 100 tx (170 ∷ []) a))
    ⊎ ((length (filter (own_script decoder (170 ∷ [])) tx.vout) ≢ 1)
        × (extract_chain_anchor decoder 11 100 tx (170 ∷ []) ≡ err validation_failed))
extract_chain_anchor-Anchors_example = extract_chain_anchor-Anchors decoder 11 100 tx (170 ∷ [])

abbrev request_of : String → WalletRequest
request_of key = record { dedupe_key = key; kind = send (record { address = 1; amount = 1000 }) }

abbrev lost_lineage : LiveLineage
lost_lineage = record {
  lineage_id = 3;
  head_txid = 12;
  all_txids = 11 ∷ 12 ∷ [];
  requests =
      record { request = request_of "b"; txid_history = 11 ∷ 12 ∷ []; created_at = 50 }
      ∷ record { request = request_of "c"; txid_history = 12 ∷ []; created_at = 60 }
      ∷ [];
  cover_utxos = [];
  chain_anchor = none;
}

abbrev row_of :
    String
    → WalletRequestStatus
    → Option LineageId
    → Option Txid
    → List Txid
    → Option ChainAnchor
    → WalletRequestRow
row_of key status lineage txid history anchor = record {
  scope = "bitcoin";
  dedupe_key = key;
  status = status;
  lineage_id = lineage;
  batch_txid = txid;
  txid_history = history;
  chain_anchor = anchor;
  payload = send (record { address = 1; amount = 1000 });
  created_at = 50;
}

abbrev before : Table
before =
    row_of "b" inflight (some 3) (some 12) (11 ∷ 12 ∷ []) none
    ∷ row_of "c" inflight (some 3) (some 12) (12 ∷ []) none
    ∷ []

abbrev anchor : ChainAnchor
anchor = record {
  confirmed_txid = 11;
  change_outpoint = record { txid = 11; vout = 1 };
  change_value = 90000;
  change_script_pubkey = 170 ∷ [];
  confirmed_height = 100;
}

abbrev after : Table
after =
    row_of "b" is_confirmed (some 3) (some 11) (11 ∷ 12 ∷ []) none
    ∷ row_of "c" pending none none (12 ∷ []) (some anchor)
    ∷ []

abbrev watcher : ReconciliationObserver
watcher = record {
  observe_tx = λ txid. if txid == 11 then ok confirmed else ok missing;
  load_tx = λ txid. ok tx;
}

abbrev outcome : ReconciliationResult
outcome = record {
  state = was_confirmed 11;
  survivor_requests = request_of "b" ∷ [];
  requeued_requests =
      record { request = request_of "c"; chain_anchor = some anchor; created_at = 60 } ∷ [];
}

reconciled_lem :
    reconcile_missing_lineage decoder watcher "bitcoin" lost_lineage 102 6 (170 ∷ []) 99 before
    ≡ ok (outcome, after)
unfolding reconcile_missing_lineage reconcile_candidates settle_confirmed settle_in_mempool
    settle_without_survivor partition_surviving_lineage split_by_history wallet_requests
    requeued_as_pending created_at_for_request extract_chain_anchor own_outputs confirmations_at
    persist_reconciliation validate_reconciliation_plan ensure_unique_keys has_duplicate
    collect_reconciliation_keys sort_keys sort_by insert_by load_wallet_request_rows_for_update
    index_wallet_request_rows is_selected check_member get_row ensure_status ensure_matching_lineage
    update_rows_to_confirmed update_rows_to_pending_with_optional_anchor update_rows
reconciled_lem = refl

reconcile_missing_lineage-IsSettled_example :
    Verdict watcher (12 ∷ 11 ∷ []) outcome.state
    × IsSettled "bitcoin" lost_lineage before after outcome
    × Pairwise IsTransition before after
reconcile_missing_lineage-IsSettled_example =
    reconcile_missing_lineage-IsSettled decoder watcher "bitcoin" lost_lineage 102 6 (170 ∷ []) 99
      before after outcome reconciled_lem
