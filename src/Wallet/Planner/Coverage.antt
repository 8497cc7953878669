-- ===== src/Wallet/Planner/Coverage.antt =====
-- Every pending request is planned once or not at all: the lemmas behind
-- `plan_wallet_batches-covers`.
use mathlib.Core.Option
use mathlib.Core.Path.{subst}
use uni_pay.Prelude.{
  All, Bool-cases, List, Option, Option-cases, [], ap, arith, get_elem?, inl, inr, length, none,
  refl, some, suc, sym, total, total-append, ℕ, ◌++◌, ◌+◌, ◌<◌, ◌==◌, ◌∙◌, ◌∷◌, ◌≡◌, ◌≢◌, ◌≤◌, ◌⊎◌,
}
use uni_pay.Wallet.Planner.{
  CostedAction, PlannedBatchAction, PlannerCostEvaluator, chained, cheapest_choice, fresh,
  lineage_of_anchor, plan_chained_group, plan_free_only, rbf, request_output_count,
}
use uni_pay.Wallet.Planner.Groups.{Group, add_to_group, group_anchored_requests, group_from}
use uni_pay.Wallet.Planner.Plan.{
  Assignment, GroupChoice, actions_of, add_u64, base_total_cost, improves, mix_from, offer,
  plan_groups, separate,
}
use uni_pay.Wallet.Types.{
  ChainAnchor, PendingWalletRequest, WalletConfig, WalletRuntimeState, anchor_eq,
}

abbrev pub requests_of : PlannedBatchAction → List PendingWalletRequest
requests_of (fresh rs) = rs
requests_of (rbf _ rs) = rs
requests_of (chained _ _ rs) = rs

-- The requests of all the actions together are exactly the given ones, each as often: every
-- weighting of requests has the same total on both sides.
abbrev pub Carries : List PlannedBatchAction → List PendingWalletRequest → Type 0
Carries plan requests =
    (w : PendingWalletRequest → ℕ) → total (λ a. total w (requests_of a)) plan ≡ total w requests

module _ (w : PendingWalletRequest → ℕ) where
  -- The weight of all requests in the planned actions.
  abbrev pub planned_weight : List PlannedBatchAction → ℕ
  planned_weight = total (λ a. total w (requests_of a))

  abbrev pub grouped_weight : List Group → ℕ
  grouped_weight = total (λ (g : Group). total w g.1)

  add_to_group-grouped_weight :
      (anchor : ChainAnchor) (r : PendingWalletRequest) (groups : List Group)
      → grouped_weight (add_to_group anchor r groups) ≡ grouped_weight groups + w r
  unfolding add_to_group
  add_to_group-grouped_weight anchor r [] = omega arith
  add_to_group-grouped_weight anchor r ((a, rs) ∷ groups) = elim (Bool-cases (a == anchor)) [
    | inl same ↦ rw same (omega (arith, total-append w rs (r ∷ [])))
    | inr other ↦ rw other (omega (arith, add_to_group-grouped_weight anchor r groups))
  ]

  group_from-grouped_weight :
      (groups : List Group) (rs : List PendingWalletRequest)
      → All (λ r. r.chain_anchor ≢ none) rs
      → grouped_weight (group_from groups rs) ≡ grouped_weight groups + total w rs
  unfolding group_from
  group_from-grouped_weight groups [] h = omega arith
  group_from-grouped_weight groups (r ∷ rs) h = elim (Option-cases r.chain_anchor) [
    | inl free ↦ absurd (h.0 free)
    | inr (a, e) ↦ simp e (
        omega (
          arith,
          group_from-grouped_weight (add_to_group a r groups) rs h.1,
          add_to_group-grouped_weight a r groups,
        ))
  ]

  pub group_anchored_requests-grouped_weight :
      (rs : List PendingWalletRequest)
      → All (λ r. r.chain_anchor ≢ none) rs
      → grouped_weight (group_anchored_requests rs) ≡ total w rs
  unfolding group_anchored_requests
  group_anchored_requests-grouped_weight rs h = omega (arith, group_from-grouped_weight [] rs h)

cheapest_choice_cases :
    (d : CostedAction) (ds : List CostedAction) (c : CostedAction)
    → cheapest_choice (d ∷ ds) ≡ some c
    → (d ≡ c) ⊎ (cheapest_choice ds ≡ some c)
unfolding cheapest_choice
cheapest_choice_cases d ds c e = ground arith

-- What holds of every choice holds of the cheapest.
pub cheapest_choice-All {ℓ} :
    (P : CostedAction → Type ℓ) (cs : List CostedAction) (c : CostedAction)
    → All P cs
    → cheapest_choice cs ≡ some c
    → P c
cheapest_choice-All P [] c h e = unfold cheapest_choice in cc
cheapest_choice-All P (d ∷ ds) c h e = elim (cheapest_choice_cases d ds c e) [
  | inl same ↦ subst P same h.0
  | inr later ↦ cheapest_choice-All P ds c h.1 later
]

module _ (s : WalletRuntimeState) (config : WalletConfig) (evaluator : PlannerCostEvaluator) where
  -- A plan for free requests is one fresh batch of exactly these requests.
  pub plan_free_only-action :
      (rs : List PendingWalletRequest) {c : CostedAction}
      → plan_free_only s config evaluator rs ≡ some c
      → (c.action ≡ fresh rs)
        × (request_output_count rs ≤ config.max_outputs_per_batch)
        × (length s.live_lineages < config.max_concurrent_lineages)
  unfolding plan_free_only
  plan_free_only-action rs e = ground arith

  -- A plan for a group is one chained batch of exactly these requests on its anchor.
  pub plan_chained_group-action :
      (a : ChainAnchor) (rs : List PendingWalletRequest) {c : CostedAction}
      → plan_chained_group s config evaluator a rs ≡ some c
      → (c.action
          ≡ chained (Option.map (λ l. l.lineage_id) (lineage_of_anchor s.live_lineages a)) a rs)
        × (request_output_count rs ≤ config.max_outputs_per_batch)
  unfolding plan_chained_group
  plan_chained_group-action a rs e = ground arith

  -- A group's choice is the plan of the group.
  abbrev pub IsPlanned : GroupChoice → Type 0
  IsPlanned g = plan_chained_group s config evaluator g.chain_anchor g.requests ≡ some g.choice

  pub plan_groups_cases :
      (a : ChainAnchor) (rs : List PendingWalletRequest) (gs : List Group)
      (choices : List GroupChoice)
      → plan_groups s config evaluator ((a, rs) ∷ gs) ≡ some choices
      → (c : CostedAction) × (rest : List GroupChoice) × (plan_chained_group s config evaluator a rs
          ≡ some c)
        × (plan_groups s config evaluator gs ≡ some rest)
        × (choices ≡ record { chain_anchor = a; requests = rs; choice = c } ∷ rest)
  unfolding plan_groups
  plan_groups_cases a rs gs choices e =
      elim (Option-cases (plan_chained_group s config evaluator a rs)) [
        | inl infeasible ↦ absurd (ground arith)
        | inr (c, p) ↦ elim (Option-cases (plan_groups s config evaluator gs)) [
          | inl later ↦ absurd (ground arith)
          | inr (rest, q) ↦ (c, rest, p, q, ground arith)
        ]
      ]

  pub plan_groups-nil :
      {choices : List GroupChoice} → plan_groups s config evaluator [] ≡ some choices → choices ≡ []
  unfolding plan_groups
  plan_groups-nil e = ground arith

  pub plan_groups-IsPlanned :
      (gs : List Group) (choices : List GroupChoice)
      → plan_groups s config evaluator gs ≡ some choices
      → All IsPlanned choices
  plan_groups-IsPlanned [] choices e = rw (plan_groups-nil e) tt
  plan_groups-IsPlanned ((a, rs) ∷ gs) choices e =
      let (c, rest, planned, more, shape) = plan_groups_cases a rs gs choices e in
      rw shape (planned, plan_groups-IsPlanned gs rest more)

  pub plan_groups-weight :
      (w : PendingWalletRequest → ℕ) (gs : List Group) (choices : List GroupChoice)
      → plan_groups s config evaluator gs ≡ some choices
      → total (λ (g : GroupChoice). total w g.requests) choices ≡ grouped_weight w gs
  plan_groups-weight w [] choices e = rw (plan_groups-nil e)
  plan_groups-weight w ((a, rs) ∷ gs) choices e =
      let (c, rest, planned, more, shape) = plan_groups_cases a rs gs choices e in
      rw shape (omega (arith, plan_groups-weight w gs rest more))

  -- The chosen actions carry exactly the requests of the groups.
  pub actions_of-weight :
      (w : PendingWalletRequest → ℕ) (choices : List GroupChoice)
      → All IsPlanned choices
      → planned_weight w (actions_of choices)
        ≡ total (λ (g : GroupChoice). total w g.requests) choices
  actions_of-weight w [] h = refl
  actions_of-weight w (g ∷ gs) h =
      rw (plan_chained_group-action g.chain_anchor g.requests h.0).0
        (omega (arith, actions_of-weight w gs h.1))

  -- What the second loop keeps: the free requests stay separate, or join one group.
  abbrev pub IsPlaced : List GroupChoice → Option Assignment → Type 0
  IsPlaced choices none = Unit
  IsPlaced choices (some (none, c, _)) = plan_free_only s config evaluator s.pending.free ≡ some c
  IsPlaced choices (some (some i, c, _)) =
      (g : GroupChoice) × (get_elem? choices i ≡ some g)
      × (plan_chained_group s config evaluator g.chain_anchor (g.requests ++ s.pending.free)
          ≡ some c)

  offer-IsPlaced :
      (choices : List GroupChoice) (a : Assignment) (best : Option Assignment)
      → IsPlaced choices (some a)
      → IsPlaced choices best
      → IsPlaced choices (offer a best)
  offer-IsPlaced choices a best ha hb = elim (Bool-cases (improves a.2 best)) [
    | inl better ↦ rw better ha
    | inr worse ↦ rw worse hb
  ]

  at_start :
      (choices : List GroupChoice) (index : ℕ) {g : GroupChoice}
      → some g ≡ get_elem? choices (index + 0)
      → get_elem? choices index ≡ some g
  at_start choices index e =
      let same : index ≡ index + 0 = omega arith in ap (get_elem? choices) same ∙ sym e

  at_zero : (choices : List GroupChoice) (k : ℕ) → get_elem? choices k ≡ get_elem? choices (0 + k)
  at_zero choices k = let same : k ≡ 0 + k = omega arith in ap (get_elem? choices) same

  mix_from-IsPlaced :
      (base index : ℕ) (choices rest : List GroupChoice) (best : Option Assignment)
      → ((k : ℕ) → get_elem? rest k ≡ get_elem? choices (index + k))
      → IsPlaced choices best
      → IsPlaced choices (mix_from s config evaluator base index rest best)
  unfolding mix_from
  mix_from-IsPlaced base index choices [] best at_index h = h
  mix_from-IsPlaced base index choices (g ∷ gs) best at_index h =
      let later = λ (k : ℕ). at_index (suc k) ∙ ap (get_elem? choices) (omega arith) in
      elim (Option-cases
        (plan_chained_group s config evaluator g.chain_anchor (g.requests ++ s.pending.free))) [
          | inl infeasible ↦
              rw infeasible (mix_from-IsPlaced base (suc index) choices gs best later h)
          | inr (c, p) ↦ rw p (
              mix_from-IsPlaced base (suc index) choices gs _ later
                (offer-IsPlaced choices _ best (g, at_start choices index (at_index 0), p) h))
        ]

  separate_of-IsPlaced :
      (choices : List GroupChoice) (o : Option CostedAction)
      → plan_free_only s config evaluator s.pending.free ≡ o
      → IsPlaced choices (Option.map (λ c. (none, c, add_u64 (base_total_cost choices) c.cost)) o)
  separate_of-IsPlaced choices none e = tt
  separate_of-IsPlaced choices (some c) e = e

  pub best-IsPlaced :
      (choices : List GroupChoice)
      → IsPlaced choices (
          mix_from s config evaluator
            (base_total_cost choices)
            0
            choices
            (separate s config evaluator choices))
  best-IsPlaced choices =
      mix_from-IsPlaced (base_total_cost choices) 0 choices choices
        (separate s config evaluator choices) (λ k. at_zero choices k)
        (separate_of-IsPlaced choices (plan_free_only s config evaluator s.pending.free) refl)
