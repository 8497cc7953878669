-- ===== src/Wallet/Runtime.antt =====
-- wallet/runtime.rs: the in-memory state machine. Its pending buckets are here; the tick, the
-- observation of live lineages and the recovery are in the child modules.
-- `time::OffsetDateTime` is a number of seconds; its limit (the year 9999) is not modelled.
pub mod Buckets
pub mod Housekeeping
pub mod Observe
pub mod Probe
pub mod Sweep
pub mod Recover
pub mod Recovered
use uni_pay.Prelude.{
  Bool, List, [], filter, if◌then◌else◌, is_some, leb, ltb, min, none, not, option_eq, some, ℕ,
  ◌++◌, ◌+◌, ◌-◌, ◌==◌, ◌^◌, ◌∷◌,
}
use uni_pay.Wallet.Planner.{PlannedBatchAction, PlannerCostEvaluator}
use uni_pay.Wallet.Planner.Plan.{plan_wallet_batches}
use uni_pay.Wallet.Types.{
  ChainAnchor, PendingState, PendingWalletRequest, Timestamp, WalletConfig, WalletRuntimeState,
  anchor_eq,
}

-- `push_pending`, and one round of `PendingState::from_requests`.
unfoldable pub push_request : PendingWalletRequest → PendingState → PendingState
push_request r p =
    if is_some r.chain_anchor
    then record p { anchored = p.anchored ++ r ∷ [] }
    else record p { free = p.free ++ r ∷ [] }

unfoldable pub push_all : List PendingWalletRequest → PendingState → PendingState
unfolding push_request
push_all [] p = p
push_all (r ∷ rs) p = push_all rs (push_request r p)

unfoldable pub from_requests : List PendingWalletRequest → PendingState
unfolding push_all
from_requests rs = push_all rs (record { free = []; anchored = [] })

unfoldable pub push_pending : PendingWalletRequest → WalletRuntimeState → WalletRuntimeState
unfolding push_request
push_pending r s = record s { pending = push_request r s.pending }

-- `current_height.saturating_sub(confirmed_height).saturating_add(1)`, on `u64`.
unfoldable pub confirmations_at : ℕ → ℕ → ℕ
confirmations_at current_height confirmed_height =
    min (current_height - confirmed_height + 1) (2 ^ 64 - 1)

abbrev pub unpinned : PendingWalletRequest → PendingWalletRequest
unpinned r = record r { chain_anchor = none }

-- A loop that drains the anchored bucket: the free bucket, the moved requests, those that stay.
pub record Drained : Type 0 where
  pub free : List PendingWalletRequest
  pub moved : List PendingWalletRequest
  pub still_anchored : List PendingWalletRequest

abbrev pub move_request : PendingWalletRequest → Drained → Drained
move_request r d = record d { free = d.free ++ unpinned r ∷ []; moved = d.moved ++ unpinned r ∷ [] }

abbrev pub keep_request : PendingWalletRequest → Drained → Drained
keep_request r d = record d { still_anchored = d.still_anchored ++ r ∷ [] }

unfoldable pub expire_step : ℕ → ℕ → PendingWalletRequest → Drained → Drained
unfolding confirmations_at
expire_step height required r d = elim r.chain_anchor [
  | none ↦ record d { free = d.free ++ r ∷ [] }
  | some anchor ↦
      if leb required (confirmations_at height anchor.confirmed_height)
      then move_request r d
      else keep_request r d
]

unfoldable pub release_step : ChainAnchor → PendingWalletRequest → Drained → Drained
release_step anchor r d =
    if r.chain_anchor == some anchor then move_request r d else keep_request r d

unfoldable pub drain :
    (PendingWalletRequest → Drained → Drained) → List PendingWalletRequest → Drained → Drained
drain step [] d = d
drain step (r ∷ rs) d = drain step rs (step r d)

abbrev pub drain_anchored :
    (PendingWalletRequest → Drained → Drained)
    → WalletRuntimeState
    → List PendingWalletRequest × WalletRuntimeState
drain_anchored step s =
    let d =
      drain step s.pending.anchored
        (record { free = s.pending.free; moved = []; still_anchored = [] }) in
    (d.moved, record s { pending = record { free = d.free; anchored = d.still_anchored } })

unfoldable pub expire_chain_anchors :
    ℕ → WalletRuntimeState → List PendingWalletRequest × WalletRuntimeState
unfolding drain expire_step
expire_chain_anchors required s = drain_anchored (expire_step s.current_height required) s

unfoldable pub release_chain_anchor_group :
    ChainAnchor → WalletRuntimeState → List PendingWalletRequest × WalletRuntimeState
unfolding drain release_step
release_chain_anchor_group anchor s = drain_anchored (release_step anchor) s

-- `created_at + Duration::seconds(ttl as i64) < now`: from 2 ^ 63 on, the cast is negative.
unfoldable pub is_stale : Timestamp → ℕ → PendingWalletRequest → Bool
is_stale now ttl r =
    if ltb ttl (2 ^ 63)
    then ltb (r.created_at + ttl) now
    else ltb r.created_at (now + (2 ^ 64 - ttl))

-- `retain`, with the dropped requests in order.
unfoldable pub drop_stale_pending :
    Timestamp → ℕ → WalletRuntimeState → List PendingWalletRequest × WalletRuntimeState
drop_stale_pending now ttl s = (
  filter (is_stale now ttl) s.pending.free ++ filter (is_stale now ttl) s.pending.anchored,
  record s {
    pending = record {
      free = filter (λ r. not (is_stale now ttl r)) s.pending.free;
      anchored = filter (λ r. not (is_stale now ttl r)) s.pending.anchored;
    };
  },
)

pub record TickOutcome : Type 0 where
  pub executed_actions : List PlannedBatchAction
  pub dropped_requests : List PendingWalletRequest
  pub expired_anchor_requests : List PendingWalletRequest

-- The executor is a state of its own: `execute` for each planned action, in order.
abbrev pub execute_all {ℓ} :
    {X : Type ℓ} → (X → PlannedBatchAction → X) → List PlannedBatchAction → X → X
execute_all execute [] x = x
execute_all execute (a ∷ as') x = execute_all execute as' (execute x a)

-- The state on which `tick` plans: new work, then expired anchors, then stale requests.
unfoldable pub housekeep :
    List PendingWalletRequest
    → ℕ
    → Timestamp
    → WalletConfig
    → WalletRuntimeState
    → List PendingWalletRequest × List PendingWalletRequest × WalletRuntimeState
unfolding push_all
housekeep new_requests current_height now config s =
    let arrived = record s {
      current_height = current_height;
      pending = push_all new_requests s.pending;
    } in
    let (expired, unpinned_state) =
      expire_chain_anchors config.chain_anchor_confirmations arrived in
    let (dropped, fresh_state) =
      drop_stale_pending now config.max_pending_ttl_secs unpinned_state in
    (expired, dropped, fresh_state)

unfoldable pub tick {ℓ} :
    {X : Type ℓ}
    → List PendingWalletRequest
    → ℕ
    → Timestamp
    → WalletConfig
    → PlannerCostEvaluator
    → (X → PlannedBatchAction → X)
    → X
    → WalletRuntimeState
    → TickOutcome × X × WalletRuntimeState
unfolding housekeep
tick new_requests current_height now config evaluator execute x s =
    let (expired, dropped, s') = housekeep new_requests current_height now config s in
    let actions = plan_wallet_batches s' config evaluator in
    (
      record {
        executed_actions = actions;
        dropped_requests = dropped;
        expired_anchor_requests = expired;
      },
      execute_all execute actions x,
      s',
    )
