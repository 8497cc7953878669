-- ===== src/Wallet/Planner.antt =====
-- wallet/planner.rs: which groups of pending requests become batches. The cost model is the
-- trait `PlannerCostEvaluator`, a record of functions; costs are `u64`, with their wrap-around.
pub mod Groups
pub mod Plan
pub mod Coverage
pub mod Theorems
pub mod Safety
pub mod Pins
pub mod Anchors
use mathlib.Core.Option
use uni_pay.Prelude.{
  Bool, List, Option, [], if◌then◌else◌, is_some, leb, length, ltb, none, not, option_eq, some,
  total, ℕ, ◌==◌, ◌^◌, ◌∷◌,
}
use uni_pay.Wallet.Types.{
  ChainAnchor, LineageId, LiveLineage, PendingWalletRequest, WalletConfig, WalletRequestKind,
  WalletRuntimeState, anchor_eq, send, spend,
}

pub data PlannedBatchAction : Type 0 where
  fresh : List PendingWalletRequest → PlannedBatchAction
  rbf : LineageId → List PendingWalletRequest → PlannedBatchAction
  chained : Option LineageId → ChainAnchor → List PendingWalletRequest → PlannedBatchAction

pub record PlannerCostEvaluator : Type 0 where
  pub fresh_cost : List PendingWalletRequest → Option ℕ
  pub rbf_cost : LiveLineage → List PendingWalletRequest → Option ℕ
  pub chained_cost : ChainAnchor → Option LiveLineage → List PendingWalletRequest → Option ℕ

pub record CostedAction : Type 0 where
  pub action : PlannedBatchAction
  pub cost : ℕ

abbrev pub u64_mod : ℕ
u64_mod = 2 ^ 64

abbrev pub outputs_of : WalletRequestKind → ℕ
outputs_of (send s) = 1
outputs_of (spend s) = if is_some s.recipient then 1 else 0

unfoldable pub request_output_count : List PendingWalletRequest → ℕ
request_output_count requests = total (λ p. outputs_of p.request.kind) requests

unfoldable pub requests_fit_output_cap : List PendingWalletRequest → ℕ → Bool
unfolding request_output_count
requests_fit_output_cap requests max_outputs = leb (request_output_count requests) max_outputs

-- `sort_by_key(cost)` is stable, so its first element is the first of the cheapest.
unfoldable pub cheapest_choice : List CostedAction → Option CostedAction
cheapest_choice [] = none
cheapest_choice (c ∷ cs) = elim (cheapest_choice cs) [
  | none ↦ some c
  | some d ↦ if leb c.cost d.cost then some c else some d
]

fresh_choices :
    WalletRuntimeState
    → WalletConfig
    → PlannerCostEvaluator
    → List PendingWalletRequest
    → List CostedAction
fresh_choices s config evaluator requests =
    if ltb (length s.live_lineages) config.max_concurrent_lineages
    then elim (evaluator.fresh_cost requests) [
      | none ↦ []
      | some cost ↦ record { action = fresh requests; cost = cost } ∷ []
    ]
    else []

unfoldable pub plan_free_only :
    WalletRuntimeState
    → WalletConfig
    → PlannerCostEvaluator
    → List PendingWalletRequest
    → Option CostedAction
unfolding fresh_choices cheapest_choice requests_fit_output_cap
plan_free_only s config evaluator requests =
    if not (requests_fit_output_cap requests config.max_outputs_per_batch)
    then none
    else cheapest_choice (fresh_choices s config evaluator requests)

-- `filter(chain_anchor == Some(anchor)).min_by_key(lineage_id.to_string())`
unfoldable pub lineage_of_anchor : List LiveLineage → ChainAnchor → Option LiveLineage
lineage_of_anchor [] anchor = none
lineage_of_anchor (l ∷ ls) anchor =
    let best = lineage_of_anchor ls anchor in
    if l.chain_anchor == some anchor
    then (elim best [
      | none ↦ some l
      | some b ↦ if leb l.lineage_id b.lineage_id then some l else some b
    ])
    else best

unfoldable pub plan_chained_group :
    WalletRuntimeState
    → WalletConfig
    → PlannerCostEvaluator
    → ChainAnchor
    → List PendingWalletRequest
    → Option CostedAction
unfolding requests_fit_output_cap
plan_chained_group s config evaluator anchor requests =
    if not (requests_fit_output_cap requests config.max_outputs_per_batch)
    then none
    else let existing = lineage_of_anchor s.live_lineages anchor in
      Option.map
        (λ cost. record {
          action = chained (Option.map (λ l. l.lineage_id) existing) anchor requests;
          cost = cost;
        })
        (evaluator.chained_cost anchor existing requests)
