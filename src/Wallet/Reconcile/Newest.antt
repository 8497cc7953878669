-- ===== src/Wallet/Reconcile/Newest.antt =====
-- What a reconciliation of wallet/reconcile.rs decides, writes and answers.
use mathlib.Core.Path.{subst}
use uni_pay.Prelude.{
  All, List, Option, Pairwise, Result, String, [], ap, arith, bind_ok, err, err_ok, map, none, ok,
  ok_injective, refl, reverse, some, sym, total, ℕ, ◌++◌, ◌+◌, ◌∷◌, ◌≡◌,
}
use uni_pay.Store.Lifecycle.{IsTransition}
use uni_pay.Store.Operations.{persist_reconciliation}
use uni_pay.Store.Plans.{
  ReconciliationPersistenceKind, ReconciliationPersistencePlan, confirmed_by, in_mempool_as,
  no_survivor,
}
use uni_pay.Store.Rows.{Table}
use uni_pay.Store.Transitions.{persist_reconciliation-IsTransition}
use uni_pay.Wallet.Confirm.{HexDecode}
use uni_pay.Wallet.Reconcile.{
  ReconciledLineageState, ReconciliationObserver, ReconciliationResult, partition_surviving_lineage,
  plan_of, reconcile_candidates, reconcile_missing_lineage, request_keys, requeued_as_pending,
  result_of, settle, settle_confirmed, settle_in_mempool, settle_without_survivor, survivor_anchor,
  was_confirmed, was_in_mempool, without_survivor,
}
use uni_pay.Wallet.Reconcile.Requeued.{partition-weight, requeued_as_pending-weight}
use uni_pay.Wallet.Types.{
  ChainAnchor, ExecutorError, LiveLineage, LiveLineageRequest, ObservedTxState,
  PendingWalletRequest, ScriptBuf, Timestamp, Txid, WalletRequest, confirmed, in_mempool, missing,
}

abbrev pub kind_of : ReconciledLineageState → ReconciliationPersistenceKind
kind_of (was_confirmed txid) = confirmed_by txid
kind_of (was_in_mempool txid) = in_mempool_as txid
kind_of without_survivor = no_survivor

module _ (o : ReconciliationObserver) where
  -- The first candidate that is not missing, with what the observer says of it.
  abbrev pub IsNewest : List Txid → Txid → ObservedTxState → Type 0
  IsNewest candidates txid state =
      (newer older : List Txid) × (candidates ≡ newer ++ txid ∷ older)
      × All (λ n. o.observe_tx n ≡ ok missing) newer
      × (o.observe_tx txid ≡ ok state)

  abbrev pub Verdict : List Txid → ReconciledLineageState → Type 0
  Verdict candidates (was_confirmed txid) = IsNewest candidates txid confirmed
  Verdict candidates (was_in_mempool txid) = IsNewest candidates txid in_mempool
  Verdict candidates without_survivor = All (λ n. o.observe_tx n ≡ ok missing) candidates

  IsNewest-cons :
      (txid found : Txid) (older : List Txid) (state : ObservedTxState)
      → o.observe_tx txid ≡ ok missing
      → IsNewest older found state
      → IsNewest (txid ∷ older) found state
  IsNewest-cons txid found older state m (newer, rest, e, unseen, seen) =
      (txid ∷ newer, rest, ap (λ l. txid ∷ l) e, (m, unseen), seen)

  Verdict-cons :
      (txid : Txid) (older : List Txid) (state : ReconciledLineageState)
      → o.observe_tx txid ≡ ok missing
      → Verdict older state
      → Verdict (txid ∷ older) state
  Verdict-cons txid older (was_confirmed x) m v = IsNewest-cons txid x older confirmed m v
  Verdict-cons txid older (was_in_mempool x) m v = IsNewest-cons txid x older in_mempool m v
  Verdict-cons txid older without_survivor m v = (m, v)

module _ (scope : String) (l : LiveLineage) (t t' : Table) (r : ReconciliationResult) where
  -- The answer agrees with the plan that was persisted, and has the lineage's requests.
  pub record IsSettled : Type 0 where
    pub plan : ReconciliationPersistencePlan
    pub written : persist_reconciliation scope plan t ≡ ok t'
    pub same_lineage : plan.lineage_id ≡ l.lineage_id
    pub same_kind : plan.kind ≡ kind_of r.state
    pub same_survivors : plan.survivor_request_keys ≡ request_keys r.survivor_requests
    pub same_requeued :
        plan.requeued_request_keys
        ≡ map (λ (q : PendingWalletRequest). q.request.dedupe_key) r.requeued_requests
    pub same_anchor :
        All (λ (q : PendingWalletRequest). q.chain_anchor ≡ plan.chain_anchor) r.requeued_requests
    pub conserved :
        (w : WalletRequest → ℕ)
        → total w r.survivor_requests
            + total (λ (q : PendingWalletRequest). w q.request) r.requeued_requests
          ≡ total (λ (q : LiveLineageRequest). w q.request) l.requests

requeued_keys :
    (l : LiveLineage) (now : Timestamp) (anchor : Option ChainAnchor) (rs : List WalletRequest)
    → request_keys rs
      ≡ map
          (λ (q : PendingWalletRequest). q.request.dedupe_key)
          (requeued_as_pending l now anchor rs)
unfolding requeued_as_pending
requeued_keys l now anchor [] = refl
requeued_keys l now anchor (r ∷ rs) = ap (λ ks. r.dedupe_key ∷ ks) (requeued_keys l now anchor rs)

requeued_anchors :
    (l : LiveLineage) (now : Timestamp) (anchor : Option ChainAnchor) (rs : List WalletRequest)
    → All
        (λ (q : PendingWalletRequest). q.chain_anchor ≡ anchor)
        (requeued_as_pending l now anchor rs)
unfolding requeued_as_pending
requeued_anchors l now anchor [] = tt
requeued_anchors l now anchor (r ∷ rs) = (refl, requeued_anchors l now anchor rs)

module _ (decode : HexDecode) (o : ReconciliationObserver) (scope : String) (l : LiveLineage)
    (current_height : ℕ) (chain_anchor_confirmations : ℕ) (script : ScriptBuf)
    (now : Timestamp) where
  settle-IsSettled :
      (state : ReconciledLineageState) (survivor : Option Txid) (anchor : Option ChainAnchor)
      (t t' : Table) (r : ReconciliationResult)
      → settle decode o scope l current_height chain_anchor_confirmations script now
          (kind_of state)
          state
          (partition_surviving_lineage l survivor)
          anchor
          t
        ≡ ok (r, t')
      → (r.state ≡ state) × IsSettled scope l t t' r
  settle-IsSettled state survivor anchor t t' r e =
      let parts = partition_surviving_lineage l survivor in
      let plan =
        plan_of decode o scope l current_height chain_anchor_confirmations script now
          (kind_of state) parts anchor in
      let made =
        result_of decode o scope l current_height chain_anchor_confirmations script now state parts
          anchor in
      let (t1, written, e1) = bind_ok (persist_reconciliation scope plan t) _ e in
      let same : (made, t1) ≡ (r, t') = ok_injective e1 refl refl in
      subst
        (λ (x : ReconciliationResult × Table). (x.0.state ≡ state) × IsSettled scope l t x.1 x.0)
        same
        (
          refl,
          record {
            plan = plan;
            written = written;
            same_lineage = refl;
            same_kind = refl;
            same_survivors = refl;
            same_requeued = requeued_keys l now anchor parts.1;
            same_anchor = requeued_anchors l now anchor parts.1;
            conserved = λ w. omega (
              arith,
              partition-weight w l survivor,
              requeued_as_pending-weight w l now anchor parts.1,
            );
          },
        )

  reconcile_candidates-IsSettled :
      (candidates : List Txid) (t t' : Table) (r : ReconciliationResult)
      → reconcile_candidates decode o scope l current_height chain_anchor_confirmations script now
          candidates t
        ≡ ok (r, t')
      → Verdict o candidates r.state × IsSettled scope l t t' r
  unfolding reconcile_candidates settle_without_survivor settle_confirmed settle_in_mempool
  reconcile_candidates-IsSettled [] t t' r e =
      let (state, settled) = settle-IsSettled without_survivor none none t t' r e in
      (subst (Verdict o []) (sym state) tt, settled)
  reconcile_candidates-IsSettled (txid ∷ older) t t' r e =
      answer (o.observe_tx txid) refl (reconcile_candidates-IsSettled older t t' r) e
    where
      answer :
          (a : Result ExecutorError ObservedTxState)
          → o.observe_tx txid ≡ a
          → (reconcile_candidates decode o scope l current_height chain_anchor_confirmations script
                  now older t
                ≡ ok (r, t')
              → Verdict o older r.state × IsSettled scope l t t' r)
          → (elim a [
            | err x ↦ err x
            | ok state ↦ elim state [
              | confirmed ↦
                  settle_confirmed decode o scope l current_height chain_anchor_confirmations script
                    now txid t
              | in_mempool ↦
                  settle_in_mempool decode o scope l current_height chain_anchor_confirmations
                    script now txid t
              | missing ↦
                  reconcile_candidates decode o scope l current_height chain_anchor_confirmations
                    script now older t
            ]
          ])
            ≡ ok (r, t')
          → Verdict o (txid ∷ older) r.state × IsSettled scope l t t' r
      answer (err x) a rest h = absurd (err_ok x h)
      answer (ok confirmed) a rest h =
          let parts = partition_surviving_lineage l (some txid) in
          let (anchor, _, h1) =
            bind_ok
              (survivor_anchor decode o scope l current_height chain_anchor_confirmations script now
                txid parts.1)
              _ h in
          let (state, settled) =
            settle-IsSettled (was_confirmed txid) (some txid) anchor t t' r h1 in
          (subst (Verdict o (txid ∷ older)) (sym state) ([], older, refl, tt, a), settled)
      answer (ok in_mempool) a rest h =
          let (state, settled) = settle-IsSettled (was_in_mempool txid) (some txid) none t t' r h in
          (subst (Verdict o (txid ∷ older)) (sym state) ([], older, refl, tt, a), settled)
      answer (ok missing) a rest h =
          let (v, settled) = rest h in (Verdict-cons o txid older r.state a v, settled)

  -- If the reconciliation of a missing lineage succeeds, then it decides for the newest txid of the lineage
  -- that the observer does not report as missing (for no survivor, if all are missing); it has persisted a
  -- plan of that kind, whose keys and anchor are those of the requests it returns; the survivors and the
  -- requeued requests together are the requests of the lineage, each as often; and the rows of the
  -- table have moved along the documented lifecycle.
  pub reconcile_missing_lineage-IsSettled :
      (t t' : Table) (r : ReconciliationResult)
      → reconcile_missing_lineage decode o scope l current_height chain_anchor_confirmations script
          now t
        ≡ ok (r, t')
      → Verdict o (reverse l.all_txids) r.state
        × IsSettled scope l t t' r
        × Pairwise IsTransition t t'
  unfolding reconcile_missing_lineage
  reconcile_missing_lineage-IsSettled t t' r e =
      let (v, settled) = reconcile_candidates-IsSettled (reverse l.all_txids) t t' r e in
      (v, settled, persist_reconciliation-IsTransition scope settled.plan t t' settled.written)
