-- ===== src/Wallet/Reconcile.antt =====
-- wallet/reconcile.rs: what becomes of a lineage whose head is no longer observed. The store is the
-- modelled table; `now` is the time that the fallback of `created_at_for_request` would read.
pub mod Newest
pub mod Requeued
pub mod Examples
use mathlib.Core.Option
use uni_pay.Prelude.{
  List, Option, Result, String, [], err, find, if◌then◌else◌, is_empty, ltb, map, none, ok, ok_or,
  reverse, some, string_eq, ℕ, ◌==◌, ◌>>=◌, ◌>>◌, ◌∷◌,
}
use uni_pay.Store.Operations.{persist_reconciliation}
use uni_pay.Store.Plans.{
  ReconciliationPersistenceKind, ReconciliationPersistencePlan, confirmed_by, in_mempool_as,
  no_survivor,
}
use uni_pay.Store.Rows.{Table}
use uni_pay.Wallet.Confirm.{HexDecode, extract_chain_anchor, split_by_history}
use uni_pay.Wallet.Runtime.{confirmations_at}
use uni_pay.Wallet.Types.{
  ChainAnchor, EsploraTx, ExecutorError, LiveLineage, ObservedTxState, PendingWalletRequest,
  ScriptBuf, Timestamp, Txid, WalletRequest, confirmed, domain, in_mempool, missing,
  wallet_requests,
}

pub record ReconciliationObserver : Type 0 where
  pub observe_tx : Txid → Result ExecutorError ObservedTxState
  pub load_tx : Txid → Result ExecutorError EsploraTx

pub data ReconciledLineageState : Type 0 where
  was_confirmed : Txid → ReconciledLineageState
  was_in_mempool : Txid → ReconciledLineageState
  without_survivor : ReconciledLineageState

pub record ReconciliationResult : Type 0 where
  pub state : ReconciledLineageState
  pub survivor_requests : List WalletRequest
  pub requeued_requests : List PendingWalletRequest

-- `partition_surviving_lineage`: the survivor's txid, or `none` if there is no survivor.
unfoldable pub partition_surviving_lineage :
    LiveLineage → Option Txid → List WalletRequest × List WalletRequest
unfolding wallet_requests
partition_surviving_lineage l none = ([], wallet_requests l)
partition_surviving_lineage l (some txid) = split_by_history txid l.requests

unfoldable pub created_at_for_request : LiveLineage → Timestamp → String → Timestamp
created_at_for_request l now key = elim (find (λ r. r.request.dedupe_key == key) l.requests) [
  | none ↦ now
  | some r ↦ r.created_at
]

abbrev pub request_keys : List WalletRequest → List String
request_keys = map (λ r. r.dedupe_key)

unfoldable pub requeued_as_pending :
    LiveLineage → Timestamp → Option ChainAnchor → List WalletRequest → List PendingWalletRequest
unfolding created_at_for_request
requeued_as_pending l now anchor = map (λ r. record {
  request = r;
  chain_anchor = anchor;
  created_at = created_at_for_request l now r.dedupe_key;
})

module _ (decode : HexDecode) (o : ReconciliationObserver) (scope : String) (l : LiveLineage)
    (current_height : ℕ) (chain_anchor_confirmations : ℕ) (script : ScriptBuf)
    (now : Timestamp) where
  abbrev pub anchor_at : Txid → EsploraTx → ℕ → Result ExecutorError (Option ChainAnchor)
  anchor_at txid tx height =
      if ltb (confirmations_at current_height height) chain_anchor_confirmations
      then (extract_chain_anchor decode txid height tx script >>= λ a. ok (some a))
      else ok none

  -- The anchor that orphaned requests continue from.
  abbrev pub survivor_anchor : Txid → List WalletRequest → Result ExecutorError (Option ChainAnchor)
  survivor_anchor txid orphans = if is_empty orphans then ok none else (do
    tx ← o.load_tx txid
    height ← ok_or tx.status.block_height domain
    anchor_at txid tx height)

  abbrev pub plan_of :
      ReconciliationPersistenceKind
      → List WalletRequest × List WalletRequest
      → Option ChainAnchor
      → ReconciliationPersistencePlan
  plan_of kind (kept, lost) anchor = record {
    lineage_id = l.lineage_id;
    kind = kind;
    survivor_request_keys = request_keys kept;
    requeued_request_keys = request_keys lost;
    chain_anchor = anchor;
  }

  abbrev pub result_of :
      ReconciledLineageState
      → List WalletRequest × List WalletRequest
      → Option ChainAnchor
      → ReconciliationResult
  result_of state (kept, lost) anchor = record {
    state = state;
    survivor_requests = kept;
    requeued_requests = requeued_as_pending l now anchor lost;
  }

  -- Persist the plan, then answer.
  abbrev pub settle :
      ReconciliationPersistenceKind
      → ReconciledLineageState
      → List WalletRequest × List WalletRequest
      → Option ChainAnchor
      → Table
      → Result ExecutorError (ReconciliationResult × Table)
  settle kind state parts anchor t = do
    t' ← persist_reconciliation scope (plan_of kind parts anchor) t
    ok (result_of state parts anchor, t')

  unfoldable pub settle_confirmed :
      Txid → Table → Result ExecutorError (ReconciliationResult × Table)
  unfolding partition_surviving_lineage requeued_as_pending
  settle_confirmed txid t =
      let parts = partition_surviving_lineage l (some txid) in
      survivor_anchor txid parts.1 >>= λ anchor.
      settle (confirmed_by txid) (was_confirmed txid) parts anchor t

  unfoldable pub settle_in_mempool :
      Txid → Table → Result ExecutorError (ReconciliationResult × Table)
  unfolding partition_surviving_lineage requeued_as_pending
  settle_in_mempool txid t =
      settle (in_mempool_as txid) (was_in_mempool txid) (partition_surviving_lineage l (some txid))
        none t

  unfoldable pub settle_without_survivor :
      Table → Result ExecutorError (ReconciliationResult × Table)
  unfolding partition_surviving_lineage requeued_as_pending
  settle_without_survivor t =
      settle no_survivor without_survivor (partition_surviving_lineage l none) none t

  -- The loop over the candidates, newest first.
  unfoldable pub reconcile_candidates :
      List Txid → Table → Result ExecutorError (ReconciliationResult × Table)
  unfolding settle_confirmed settle_in_mempool settle_without_survivor
  reconcile_candidates [] t = settle_without_survivor t
  reconcile_candidates (txid ∷ older) t =
      let rest = reconcile_candidates older t in
      elim (o.observe_tx txid) [
        | err e ↦ err e
        | ok state ↦ elim state [
          | confirmed ↦ settle_confirmed txid t
          | in_mempool ↦ settle_in_mempool txid t
          | missing ↦ rest
        ]
      ]

  unfoldable pub reconcile_missing_lineage :
      Table → Result ExecutorError (ReconciliationResult × Table)
  unfolding reconcile_candidates
  reconcile_missing_lineage t = reconcile_candidates (reverse l.all_txids) t
