-- ===== src/Wallet/Runtime/Housekeeping.antt =====
-- What a tick's housekeeping guarantees before the planner runs, and the plan that follows.
use uni_pay.Policy.Assets.{split}
use uni_pay.Prelude.{
  All, All-filter, List, [], arith, filter, none, not, total, total-append, true, ℕ, ◌+◌, ◌≡◌,
}
use uni_pay.Wallet.Planner.Pins.{IsSplit}
use uni_pay.Wallet.Runtime.{
  Drained, drain, drop_stale_pending, expire_chain_anchors, expire_step, housekeep, is_stale,
  push_all,
}
use uni_pay.Wallet.Runtime.Buckets.{
  All-filter_self, IsYoung, bucket_weight, drain-IsSettled, drain-weight, expire_step-weight,
  filter-weight, push_all-IsSplit, push_all-weight, weigh,
}
use uni_pay.Wallet.Types.{
  PendingWalletRequest, Timestamp, WalletConfig, WalletRequest, WalletRuntimeState, anchor_eq,
}

module _ (new_requests : List PendingWalletRequest) (current_height : ℕ) (now : Timestamp)
    (config : WalletConfig) (s : WalletRuntimeState) where
  -- The cleaned state: no request of the free bucket is pinned, every request of the anchored bucket
  -- is pinned to an anchor below the confirmation limit, and nothing that is left is stale.
  pub record IsClean (s' : WalletRuntimeState) : Type 0 where
    pub free_of_anchor : All (λ r. r.chain_anchor ≡ none) s'.pending.free
    pub young : All (IsYoung current_height config.chain_anchor_confirmations) s'.pending.anchored
    pub free_fresh :
        All (λ r. not (is_stale now config.max_pending_ttl_secs r) ≡ true) s'.pending.free
    pub anchored_fresh :
        All (λ r. not (is_stale now config.max_pending_ttl_secs r) ≡ true) s'.pending.anchored

  -- From buckets that are split by anchor, the housekeeping of a tick ends in a clean state.
  pub housekeep-IsClean :
      IsSplit s.pending → IsClean (housekeep new_requests current_height now config s).2
  unfolding housekeep expire_chain_anchors drop_stale_pending
  housekeep-IsClean split =
      let arrived = push_all new_requests s.pending in
      let start : Drained = record { free = arrived.free; moved = []; still_anchored = [] } in
      let d =
        drain (expire_step current_height config.chain_anchor_confirmations) arrived.anchored
          start in
      let kept = λ (r : PendingWalletRequest). not (is_stale now config.max_pending_ttl_secs r) in
      let (free, young) =
        drain-IsSettled current_height config.chain_anchor_confirmations arrived.anchored start
          ((push_all-IsSplit new_requests s.pending split).free_of_anchor, tt) in
      record {
        free_of_anchor = All-filter _ _ _ free;
        young = All-filter _ _ _ young;
        free_fresh = All-filter_self kept d.free;
        anchored_fresh = All-filter_self kept d.still_anchored;
      }

  -- No request is lost or duplicated: for every weight of a request and its enqueue time, what was
  -- pending and what arrives weigh as much as what stays pending and what is dropped as stale.
  pub housekeep_conserves :
      (w : WalletRequest → Timestamp → ℕ)
      → let (_, dropped, s') = housekeep new_requests current_height now config s in
        bucket_weight w s.pending + total (weigh w) new_requests
        ≡ bucket_weight w s'.pending + total (weigh w) dropped
  unfolding housekeep expire_chain_anchors drop_stale_pending
  housekeep_conserves w =
      let arrived = push_all new_requests s.pending in
      let required = config.chain_anchor_confirmations in
      let start : Drained = record { free = arrived.free; moved = []; still_anchored = [] } in
      let d = drain (expire_step current_height required) arrived.anchored start in
      let stale = is_stale now config.max_pending_ttl_secs in
      omega (
        arith,
        push_all-weight w new_requests s.pending,
        drain-weight w (expire_step current_height required)
            (expire_step-weight w current_height required) arrived.anchored start,
        filter-weight w stale d.free,
        filter-weight w stale d.still_anchored,
        total-append (weigh w) (filter stale d.free) (filter stale d.still_anchored),
      )
