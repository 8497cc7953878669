-- ===== src/Wallet/Planner/Plan.antt =====
-- `plan_wallet_batches` of wallet/planner.rs.
use mathlib.Core.Option
-- An anchor group with the action chosen for it: an entry of `group_choices`.
use uni_pay.Prelude.{
  Bool, List, Option, [], if◌then◌else◌, is_empty, ltb, map, none, set, some, suc, true, ℕ, ◌%◌,
  ◌&&◌, ◌++◌, ◌+◌, ◌-◌, ◌∷◌,
}
use uni_pay.Wallet.Planner.{
  CostedAction, PlannedBatchAction, PlannerCostEvaluator, plan_chained_group, plan_free_only,
  u64_mod,
}
use uni_pay.Wallet.Planner.Groups.{Group, group_anchored_requests}
use uni_pay.Wallet.Types.{ChainAnchor, PendingWalletRequest, WalletConfig, WalletRuntimeState}

pub record GroupChoice : Type 0 where
  pub chain_anchor : ChainAnchor
  pub requests : List PendingWalletRequest
  pub choice : CostedAction

-- `base_total_cost - choice.cost + mixed_choice.cost` and `+=`, on `u64`.
abbrev pub add_u64 : ℕ → ℕ → ℕ
add_u64 a b = (a + b) % u64_mod

abbrev pub sub_u64 : ℕ → ℕ → ℕ
sub_u64 a b = (a + u64_mod - b) % u64_mod

-- `best_assignment`. The index `usize::MAX`, for requests that stay separate, is `none`.
abbrev pub Assignment : Type 0
Assignment = Option ℕ × CostedAction × ℕ

abbrev pub improves : ℕ → Option Assignment → Bool
improves cost none = true
improves cost (some (_, _, best_cost)) = ltb cost best_cost

abbrev pub offer : Assignment → Option Assignment → Option Assignment
offer a best = if improves a.2 best then some a else best

abbrev pub base_from : ℕ → List GroupChoice → ℕ
base_from acc [] = acc
base_from acc (g ∷ gs) = base_from (add_u64 acc g.choice.cost) gs

abbrev pub base_total_cost : List GroupChoice → ℕ
base_total_cost = base_from 0

abbrev pub assign : Option Assignment → List PlannedBatchAction → List PlannedBatchAction
assign none planned = planned
assign (some (none, c, _)) planned = planned ++ c.action ∷ []
assign (some (some index, c, _)) planned = set planned index c.action

abbrev pub actions_of : List GroupChoice → List PlannedBatchAction
actions_of = map (λ g. g.choice.action)

module _ (s : WalletRuntimeState) (config : WalletConfig) (evaluator : PlannerCostEvaluator) where
  -- The first loop: one infeasible group ends planning (`none`).
  unfoldable pub plan_groups : List Group → Option (List GroupChoice)
  plan_groups [] = some []
  plan_groups ((anchor, requests) ∷ groups) =
      let rest = plan_groups groups in
      elim (plan_chained_group s config evaluator anchor requests) [
        | none ↦ none
        | some choice ↦
            Option.map
              (λ choices.
                record { chain_anchor = anchor; requests = requests; choice = choice } ∷ choices)
              rest
      ]

  -- The second loop, from the group at `index` on.
  unfoldable pub mix_from : ℕ → ℕ → List GroupChoice → Option Assignment → Option Assignment
  mix_from base index [] best = best
  mix_from base index (g ∷ gs) best =
      mix_from base (suc index) gs
        (elim (plan_chained_group s config evaluator g.chain_anchor
          (g.requests ++ s.pending.free)) [
            | none ↦ best
            | some mixed ↦
                offer (some index, mixed, add_u64 (sub_u64 base g.choice.cost) mixed.cost) best
          ])

  abbrev pub separate : List GroupChoice → Option Assignment
  separate choices =
      Option.map (λ c. (none, c, add_u64 (base_total_cost choices) c.cost))
        (plan_free_only s config evaluator s.pending.free)

  abbrev pub plan_anchored : Option (List GroupChoice) → List PlannedBatchAction
  plan_anchored none = []
  plan_anchored (some choices) =
      if is_empty s.pending.free
      then actions_of choices
      else assign (mix_from (base_total_cost choices) 0 choices (separate choices))
          (actions_of choices)

  abbrev pub plan_free : Option CostedAction → List PlannedBatchAction
  plan_free none = []
  plan_free (some c) = c.action ∷ []

  abbrev pub plan_from : List Group → List PlannedBatchAction
  plan_from [] = plan_free (plan_free_only s config evaluator s.pending.free)
  plan_from (g ∷ gs) = plan_anchored (plan_groups (g ∷ gs))

  unfoldable pub plan_wallet_batches : List PlannedBatchAction
  plan_wallet_batches =
      if is_empty s.pending.free && is_empty s.pending.anchored
      then []
      else plan_from (group_anchored_requests s.pending.anchored)
