-- ===== src/Wallet/Planner/Safety.antt =====
-- What every planned action satisfies: the builder's limits, and the anchors of its requests.
use uni_pay.Prelude.{
  All, All-append, All-get_elem?, All-set, Bool-cases, List, Option, [], inl, inr, is_empty, none,
  refl, some, ◌&&◌, ◌++◌, ◌∷◌, ◌≡◌,
}
use uni_pay.Wallet.Planner.{
  CostedAction, PlannedBatchAction, PlannerCostEvaluator, plan_chained_group, plan_free_only,
}
use uni_pay.Wallet.Planner.Coverage.{
  IsPlaced, IsPlanned, best-IsPlaced, plan_groups-IsPlanned, plan_groups-nil, plan_groups_cases,
}
use uni_pay.Wallet.Planner.Groups.{Group, group_anchored_requests}
use uni_pay.Wallet.Planner.Plan.{
  Assignment, GroupChoice, actions_of, assign, plan_anchored, plan_free, plan_from, plan_groups,
  plan_wallet_batches,
}
use uni_pay.Wallet.Types.{ChainAnchor, PendingWalletRequest, WalletConfig, WalletRuntimeState}

module _ (s : WalletRuntimeState) (config : WalletConfig) (evaluator : PlannerCostEvaluator) where
  module _ {ℓ} (P : PlannedBatchAction → Type ℓ) where
    abbrev GroupKeeps : ChainAnchor → List PendingWalletRequest → Type ℓ
    GroupKeeps a rs =
        (c : CostedAction) → plan_chained_group s config evaluator a rs ≡ some c → P c.action

    -- The actions that a group may get, alone or with the free requests, have the property.
    abbrev pub BothKeep : ChainAnchor → List PendingWalletRequest → Type ℓ
    BothKeep a rs = GroupKeeps a rs × GroupKeeps a (rs ++ s.pending.free)

    abbrev pub FreeKeeps : Type ℓ
    FreeKeeps =
        (c : CostedAction) → plan_free_only s config evaluator s.pending.free ≡ some c → P c.action

    actions_of-All :
        (choices : List GroupChoice)
        → All (IsPlanned s config evaluator) choices
        → All (λ (g : GroupChoice). BothKeep g.chain_anchor g.requests) choices
        → All P (actions_of choices)
    actions_of-All [] planned keeps = tt
    actions_of-All (g ∷ gs) planned keeps =
        (keeps.0.0 g.choice planned.0, actions_of-All gs planned.1 keeps.1)

    assign-All :
        (choices : List GroupChoice) (best : Option Assignment)
        → FreeKeeps
        → All (λ (g : GroupChoice). BothKeep g.chain_anchor g.requests) choices
        → All P (actions_of choices)
        → IsPlaced s config evaluator choices best
        → All P (assign best (actions_of choices))
    assign-All choices none free keeps alone placed = alone
    assign-All choices (some (none, c, _)) free keeps alone placed =
        All-append P (actions_of choices) (c.action ∷ []) alone (free c placed, tt)
    assign-All choices (some (some i, c, _)) free keeps alone (g, at, p) =
        All-set P (actions_of choices) i c.action alone (
          (All-get_elem? (λ (g : GroupChoice). BothKeep g.chain_anchor g.requests) choices i g keeps
              at).1
            c p)

    plan_groups-BothKeep :
        (groups : List Group) (choices : List GroupChoice)
        → All (λ (g : Group). BothKeep g.0 g.1) groups
        → plan_groups s config evaluator groups ≡ some choices
        → All (λ (g : GroupChoice). BothKeep g.chain_anchor g.requests) choices
    plan_groups-BothKeep [] choices keeps e = rw (plan_groups-nil s config evaluator e) tt
    plan_groups-BothKeep ((a, rs) ∷ groups) choices keeps e =
        let (c, rest, _, more, shape) =
          plan_groups_cases s config evaluator a rs groups choices e in
        rw shape (keeps.0, plan_groups-BothKeep groups rest keeps.1 more)

    plan_anchored-All :
        (groups : List Group) (o : Option (List GroupChoice))
        → plan_groups s config evaluator groups ≡ o
        → FreeKeeps
        → All (λ (g : Group). BothKeep g.0 g.1) groups
        → All P (plan_anchored s config evaluator o)
    plan_anchored-All groups none e free keeps = tt
    plan_anchored-All groups (some choices) e free keeps =
        let planned = plan_groups-IsPlanned s config evaluator groups choices e in
        let kept = plan_groups-BothKeep groups choices keeps e in
        let alone = actions_of-All choices planned kept in
        elim (Bool-cases (is_empty s.pending.free)) [
          | inl no_free ↦ rw no_free alone
          | inr some_free ↦
              rw some_free
                (assign-All choices _ free kept alone (best-IsPlaced s config evaluator choices))
        ]

    plan_free-All :
        (o : Option CostedAction)
        → plan_free_only s config evaluator s.pending.free ≡ o
        → FreeKeeps
        → All P (plan_free s config evaluator o)
    plan_free-All none e free = tt
    plan_free-All (some c) e free = (free c e, tt)

    plan_from-All :
        (groups : List Group)
        → FreeKeeps
        → All (λ (g : Group). BothKeep g.0 g.1) groups
        → All P (plan_from s config evaluator groups)
    plan_from-All [] free keeps = plan_free-All _ refl free
    plan_from-All (g ∷ gs) free keeps = plan_anchored-All (g ∷ gs) _ refl free keeps

    -- A property of the possible choices is a property of the whole plan.
    pub plan_wallet_batches-All :
        FreeKeeps
        → All (λ (g : Group). BothKeep g.0 g.1) (group_anchored_requests s.pending.anchored)
        → All P (plan_wallet_batches s config evaluator)
    unfolding plan_wallet_batches
    plan_wallet_batches-All free keeps =
        elim (Bool-cases (is_empty s.pending.free && is_empty s.pending.anchored)) [
          | inl idle ↦ rw idle tt
          | inr work ↦
              rw work (plan_from-All (group_anchored_requests s.pending.anchored) free keeps)
        ]
