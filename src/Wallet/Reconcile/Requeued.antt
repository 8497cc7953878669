-- ===== src/Wallet/Reconcile/Requeued.antt =====
-- A reconciliation of wallet/reconcile.rs, and the partitions, lose no request.
use uni_pay.Prelude.{
  Bool-cases, List, Option, [], ap, arith, contains, inl, inr, map, nat_eq, none, refl, some, total,
  ℕ, ◌+◌, ◌∷◌, ◌≡◌,
}
use uni_pay.Wallet.Confirm.{split_by_history}
use uni_pay.Wallet.Reconcile.{partition_surviving_lineage, requeued_as_pending}
use uni_pay.Wallet.Types.{
  ChainAnchor, LiveLineage, LiveLineageRequest, PendingWalletRequest, Timestamp, Txid,
  WalletRequest, wallet_requests,
}

module _ (w : WalletRequest → ℕ) where
  pub split_by_history-weight :
      (txid : Txid) (rs : List LiveLineageRequest)
      → total w (split_by_history txid rs).0 + total w (split_by_history txid rs).1
        ≡ total (λ (r : LiveLineageRequest). w r.request) rs
  unfolding split_by_history
  split_by_history-weight txid [] = refl
  split_by_history-weight txid (r ∷ rs) = elim (Bool-cases (contains r.txid_history txid)) [
    | inl kept ↦ rw kept (omega (arith, split_by_history-weight txid rs))
    | inr lost ↦ rw lost (omega (arith, split_by_history-weight txid rs))
  ]

  requests-weight :
      (rs : List LiveLineageRequest)
      → total w (map (λ (r : LiveLineageRequest). r.request) rs)
        ≡ total (λ (r : LiveLineageRequest). w r.request) rs
  requests-weight [] = refl
  requests-weight (r ∷ rs) = ap (λ n. w r.request + n) (requests-weight rs)

  pub partition-weight :
      (l : LiveLineage) (survivor : Option Txid)
      → total w (partition_surviving_lineage l survivor).0
          + total w (partition_surviving_lineage l survivor).1
        ≡ total (λ (r : LiveLineageRequest). w r.request) l.requests
  unfolding partition_surviving_lineage wallet_requests
  partition-weight l none = omega (arith, requests-weight l.requests)
  partition-weight l (some txid) = split_by_history-weight txid l.requests

  pub requeued_as_pending-weight :
      (l : LiveLineage) (now : Timestamp) (anchor : Option ChainAnchor) (rs : List WalletRequest)
      → total (λ (q : PendingWalletRequest). w q.request) (requeued_as_pending l now anchor rs)
        ≡ total w rs
  unfolding requeued_as_pending
  requeued_as_pending-weight l now anchor [] = refl
  requeued_as_pending-weight l now anchor (r ∷ rs) =
      ap (λ n. w r + n) (requeued_as_pending-weight l now anchor rs)
