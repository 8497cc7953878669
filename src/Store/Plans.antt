-- ===== src/Store/Plans.antt =====
-- The persistence plans of wallet/store.rs and their validation in persistence/bitcoin_wallet.rs.
use Prim.Native.String.{compare}
use Prim.Native.Nat.{Ordering}
use uni_pay.Prelude.{
  Bool, List, Option, Result, String, [], any, contains, fail_if, false, if◌then◌else◌, is_empty,
  is_some, map, not, string_eq, true, ◌&&◌, ◌++◌, ◌>>◌, ◌∷◌,
}
use uni_pay.Store.Rows.{WalletRequestStatus, has_duplicate}
use uni_pay.Wallet.Types.{ChainAnchor, ExecutorError, LineageId, Txid, data_corruption}

pub data BroadcastPersistenceKind : Type 0 where
  fresh : BroadcastPersistenceKind
  rbf : BroadcastPersistenceKind
  chained : BroadcastPersistenceKind

pub record BroadcastPersistencePlan : Type 0 where
  pub kind : BroadcastPersistenceKind
  pub lineage_id : LineageId
  pub txid : Txid
  pub raw_tx_hex : String
  pub included_request_keys : List String
  pub dropped_request_keys : List String

-- `WalletRequestLifecycleStatus` has the same four variants as `WalletRequestStatus`.
pub record PersistedWalletRequestSnapshot : Type 0 where
  pub dedupe_key : String
  pub status : WalletRequestStatus
  pub lineage_id : Option LineageId
  pub batch_txid : Option Txid
  pub txid_history : List Txid
  pub chain_anchor : Option ChainAnchor

pub record PersistedBatchReceipt : Type 0 where
  pub lineage_id : LineageId
  pub txid : Txid
  pub raw_tx_hex : String
  pub snapshots : List PersistedWalletRequestSnapshot

pub record ConfirmationPersistencePlan : Type 0 where
  pub lineage_id : LineageId
  pub confirmed_txid : Txid
  pub confirmed_request_keys : List String
  pub orphaned_request_keys : List String
  pub chain_anchor : Option ChainAnchor

pub data ReconciliationPersistenceKind : Type 0 where
  confirmed_by : Txid → ReconciliationPersistenceKind
  in_mempool_as : Txid → ReconciliationPersistenceKind
  no_survivor : ReconciliationPersistenceKind

pub record ReconciliationPersistencePlan : Type 0 where
  pub lineage_id : LineageId
  pub kind : ReconciliationPersistenceKind
  pub survivor_request_keys : List String
  pub requeued_request_keys : List String
  pub chain_anchor : Option ChainAnchor

pub data EnqueueWalletRequestResult : Type 0 where
  enqueued_pending : EnqueueWalletRequestResult
  already_pending : EnqueueWalletRequestResult
  already_inflight : LineageId → Txid → EnqueueWalletRequestResult
  already_confirmed : LineageId → Txid → EnqueueWalletRequestResult
  already_dropped : EnqueueWalletRequestResult

pub data ResolvePendingWalletRequestResult : Type 0 where
  cancelled_pending : ResolvePendingWalletRequestResult
  already_submitted : Txid → ResolvePendingWalletRequestResult

unfoldable pub ensure_unique_keys : List String → Result ExecutorError (Unit {0})
unfolding has_duplicate
ensure_unique_keys keys = fail_if (has_duplicate keys) data_corruption

unfoldable pub validate_persist_plan : BroadcastPersistencePlan → Result ExecutorError (Unit {0})
unfolding ensure_unique_keys
validate_persist_plan p =
    fail_if (is_empty p.included_request_keys) data_corruption
    >> (ensure_unique_keys p.included_request_keys
        >> (ensure_unique_keys p.dropped_request_keys
            >> fail_if (any (contains p.dropped_request_keys) p.included_request_keys)
                data_corruption))

abbrev pub snapshot_keys : List PersistedWalletRequestSnapshot → List String
snapshot_keys = map (λ s. s.dedupe_key)

unfoldable pub validate_revert_receipt : PersistedBatchReceipt → Result ExecutorError (Unit {0})
unfolding ensure_unique_keys
validate_revert_receipt r =
    fail_if (is_empty r.snapshots) data_corruption >> ensure_unique_keys (snapshot_keys r.snapshots)

unfoldable pub validate_confirmation_plan :
    ConfirmationPersistencePlan → Result ExecutorError (Unit {0})
unfolding ensure_unique_keys
validate_confirmation_plan p =
    fail_if (is_empty p.confirmed_request_keys) data_corruption
    >> (ensure_unique_keys p.confirmed_request_keys
        >> (ensure_unique_keys p.orphaned_request_keys
            >> (fail_if (any (contains p.orphaned_request_keys) p.confirmed_request_keys)
                  data_corruption
                >> fail_if (is_some p.chain_anchor && is_empty p.orphaned_request_keys)
                    data_corruption)))

abbrev pub validate_reconciliation_kind :
    ReconciliationPersistenceKind → ReconciliationPersistencePlan → Result ExecutorError (Unit {0})
validate_reconciliation_kind (confirmed_by _) p =
    fail_if (is_empty p.survivor_request_keys) data_corruption
validate_reconciliation_kind (in_mempool_as _) p =
    fail_if (is_empty p.survivor_request_keys) data_corruption
    >> fail_if (is_some p.chain_anchor) data_corruption
validate_reconciliation_kind no_survivor p =
    fail_if (not (is_empty p.survivor_request_keys)) data_corruption
    >> (fail_if (is_some p.chain_anchor) data_corruption
        >> fail_if (is_empty p.requeued_request_keys) data_corruption)

unfoldable pub validate_reconciliation_plan :
    ReconciliationPersistencePlan → Result ExecutorError (Unit {0})
unfolding ensure_unique_keys
validate_reconciliation_plan p =
    ensure_unique_keys p.survivor_request_keys
    >> (ensure_unique_keys p.requeued_request_keys
        >> (fail_if (any (contains p.requeued_request_keys) p.survivor_request_keys) data_corruption
            >> validate_reconciliation_kind p.kind p))

-- `sort()` on keys, and on snapshots by key.
abbrev pub str_leb : String → String → Bool
str_leb a b = elim (compare a b) [ Ordering.gt ↦ false | _ ↦ true ]

unfoldable pub insert_by {ℓ} : {A : Type ℓ} → (A → String) → A → List A → List A
insert_by key x [] = x ∷ []
insert_by key x (y ∷ ys) = if str_leb (key x) (key y) then x ∷ y ∷ ys else y ∷ insert_by key x ys

unfoldable pub sort_by {ℓ} : {A : Type ℓ} → (A → String) → List A → List A
unfolding insert_by
sort_by key [] = []
sort_by key (x ∷ xs) = insert_by key x (sort_by key xs)

unfoldable pub sort_keys : List String → List String
unfolding sort_by
sort_keys = sort_by (λ k. k)

unfoldable pub collect_plan_keys : BroadcastPersistencePlan → List String
unfolding sort_keys
collect_plan_keys p = sort_keys (p.included_request_keys ++ p.dropped_request_keys)

unfoldable pub collect_confirmation_keys : ConfirmationPersistencePlan → List String
unfolding sort_keys
collect_confirmation_keys p = sort_keys (p.confirmed_request_keys ++ p.orphaned_request_keys)

unfoldable pub collect_reconciliation_keys : ReconciliationPersistencePlan → List String
unfolding sort_keys
collect_reconciliation_keys p = sort_keys (p.survivor_request_keys ++ p.requeued_request_keys)
