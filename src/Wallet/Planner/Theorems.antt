-- ===== src/Wallet/Planner/Theorems.antt =====
-- The guarantees of `plan_wallet_batches`.
use uni_pay.Prelude.{
  All, All-get_elem?, Bool-cases, List, Option, Option-cases, [], ap, arith, get_elem?, inl, inr,
  is_empty, none, refl, set, some, suc, total, total-append, total-set, zero, ℕ, ◌&&◌, ◌++◌, ◌+◌,
  ◌∷◌, ◌≡◌, ◌≢◌, ◌⊎◌,
}
use uni_pay.Wallet.Planner.{
  CostedAction, PlannedBatchAction, PlannerCostEvaluator, fresh, plan_chained_group, plan_free_only,
}
use uni_pay.Wallet.Planner.Coverage.{
  Carries, IsPlaced, IsPlanned, actions_of-weight, best-IsPlaced,
  group_anchored_requests-grouped_weight, grouped_weight, plan_chained_group-action,
  plan_free_only-action, plan_groups-IsPlanned, plan_groups-weight, planned_weight, requests_of,
}
use uni_pay.Wallet.Planner.Groups.{Group, group_anchored_requests}
use uni_pay.Wallet.Planner.Plan.{
  Assignment, GroupChoice, actions_of, assign, plan_anchored, plan_free, plan_from, plan_groups,
  plan_wallet_batches,
}
use uni_pay.Wallet.Types.{PendingWalletRequest, WalletConfig, WalletRuntimeState}

module _ (s : WalletRuntimeState) (config : WalletConfig) (evaluator : PlannerCostEvaluator) where
  abbrev result : List PlannedBatchAction
  result = plan_wallet_batches s config evaluator

  pub get_elem?-actions_of :
      (choices : List GroupChoice) (i : ℕ) {g : GroupChoice}
      → get_elem? choices i ≡ some g
      → get_elem? (actions_of choices) i ≡ some g.choice.action
  get_elem?-actions_of [] i e = cc
  get_elem?-actions_of (c ∷ cs) zero e = ground arith
  get_elem?-actions_of (c ∷ cs) (suc i) {g = g} e = get_elem?-actions_of cs i {g = g} e

  abbrev all_requests : List GroupChoice → (PendingWalletRequest → ℕ) → ℕ
  all_requests choices w = total (λ (g : GroupChoice). total w g.requests) choices

  -- Free requests that stay separate are one more fresh batch.
  separate-weight :
      (w : PendingWalletRequest → ℕ) (choices : List GroupChoice) (c : CostedAction)
      → All (IsPlanned s config evaluator) choices
      → plan_free_only s config evaluator s.pending.free ≡ some c
      → planned_weight w (actions_of choices ++ c.action ∷ [])
        ≡ all_requests choices w + total w s.pending.free
  separate-weight w choices c planned placed =
      let (shape, _, _) = plan_free_only-action s config evaluator s.pending.free placed in
      rw shape (
        omega (
          arith,
          total-append (λ a. total w (requests_of a)) (actions_of choices)
              (fresh s.pending.free ∷ []),
          actions_of-weight s config evaluator w choices planned,
        ))

  -- A mixed group replaces the batch of the group at its index.
  mixed-weight :
      (w : PendingWalletRequest → ℕ) (choices : List GroupChoice) (i : ℕ) (c : CostedAction)
      (g : GroupChoice)
      → All (IsPlanned s config evaluator) choices
      → get_elem? choices i ≡ some g
      → plan_chained_group s config evaluator g.chain_anchor (g.requests ++ s.pending.free) ≡ some c
      → planned_weight w (set (actions_of choices) i c.action)
        ≡ all_requests choices w + total w s.pending.free
  mixed-weight w choices i c g planned at p =
      let (old, _) =
        plan_chained_group-action s config evaluator g.chain_anchor g.requests
          (All-get_elem? (IsPlanned s config evaluator) choices i g planned at) in
      let (new, _) =
        plan_chained_group-action s config evaluator g.chain_anchor (g.requests ++ s.pending.free)
          p in
      omega (
        arith,
        total-set (λ a. total w (requests_of a)) (actions_of choices) i c.action
            (get_elem?-actions_of choices i at),
        total-append w g.requests s.pending.free,
        actions_of-weight s config evaluator w choices planned,
        ap (λ a. total w (requests_of a)) old,
        ap (λ a. total w (requests_of a)) new,
      )

  abbrev Places : List GroupChoice → List PlannedBatchAction → Type 0
  Places choices plan =
      ((w : PendingWalletRequest → ℕ) → planned_weight w plan ≡ all_requests choices w)
      ⊎ ((w : PendingWalletRequest → ℕ)
          → planned_weight w plan ≡ all_requests choices w + total w s.pending.free)

  assign-Places :
      (choices : List GroupChoice) (best : Option Assignment)
      → All (IsPlanned s config evaluator) choices
      → IsPlaced s config evaluator choices best
      → Places choices (assign best (actions_of choices))
  assign-Places choices none planned placed =
      inl λ w. actions_of-weight s config evaluator w choices planned
  assign-Places choices (some (none, c, _)) planned placed =
      inr λ w. separate-weight w choices c planned placed
  assign-Places choices (some (some i, c, _)) planned (g, at, p) =
      inr λ w. mixed-weight w choices i c g planned at p

  plan_anchored-Places :
      (choices : List GroupChoice)
      → All (IsPlanned s config evaluator) choices
      → Places choices (plan_anchored s config evaluator (some choices))
  plan_anchored-Places choices planned = elim (Bool-cases (is_empty s.pending.free)) [
    | inl no_free ↦ rw no_free (inl λ w. actions_of-weight s config evaluator w choices planned)
    | inr free ↦
        rw free (assign-Places choices _ planned (best-IsPlaced s config evaluator choices))
  ]

  abbrev Covers : List Group → List PlannedBatchAction → Type 0
  Covers groups plan =
      (plan ≡ [])
      ⊎ ((w : PendingWalletRequest → ℕ) → planned_weight w plan ≡ grouped_weight w groups)
      ⊎ ((w : PendingWalletRequest → ℕ)
          → planned_weight w plan ≡ grouped_weight w groups + total w s.pending.free)

  plan_groups-Covers :
      (groups : List Group)
      → Covers groups (plan_anchored s config evaluator (plan_groups s config evaluator groups))
  plan_groups-Covers groups = elim (Option-cases (plan_groups s config evaluator groups)) [
    | inl infeasible ↦ rw infeasible (inl refl)
    | inr (choices, e) ↦
        let same = λ (w : PendingWalletRequest → ℕ).
          plan_groups-weight s config evaluator w groups choices e in
        rw e
          (elim (plan_anchored-Places choices
            (plan_groups-IsPlanned s config evaluator groups choices e)) [
              | inl alone ↦ inr (inl λ w. omega (arith, same w, alone w))
              | inr mixed ↦ inr (inr λ w. omega (arith, same w, mixed w))
            ])
  ]

  plan_free-Covers :
      (o : Option CostedAction)
      → plan_free_only s config evaluator s.pending.free ≡ o
      → Covers [] (plan_free s config evaluator o)
  plan_free-Covers none e = inl refl
  plan_free-Covers (some c) e =
      inr (inr λ w. rw (plan_free_only-action s config evaluator s.pending.free e).0 (omega arith))

  plan_from-Covers : (groups : List Group) → Covers groups (plan_from s config evaluator groups)
  plan_from-Covers [] = plan_free-Covers _ refl
  plan_from-Covers (g ∷ gs) = plan_groups-Covers (g ∷ gs)

  -- If every request of the anchored bucket has an anchor, the planned actions together carry
  -- nothing, or exactly the anchored requests, or exactly the anchored and the free requests: no
  -- request is lost from a bucket that is planned, and none is planned twice.
  pub plan_wallet_batches-covers :
      All (λ r. r.chain_anchor ≢ none) s.pending.anchored
      → let plan = plan_wallet_batches s config evaluator in
        (plan ≡ [])
        ⊎ Carries plan s.pending.anchored
        ⊎ Carries plan (s.pending.anchored ++ s.pending.free)
  unfolding plan_wallet_batches
  plan_wallet_batches-covers h =
      elim (Bool-cases (is_empty s.pending.free && is_empty s.pending.anchored)) [
        | inl idle ↦ rw idle (inl refl)
        | inr work ↦
            let same = λ (w : PendingWalletRequest → ℕ).
              group_anchored_requests-grouped_weight w s.pending.anchored h in
            rw work (elim (plan_from-Covers (group_anchored_requests s.pending.anchored)) [
              | inl nothing ↦ inl nothing
              | inr (inl alone) ↦ inr (inl λ w. omega (arith, same w, alone w))
              | inr (inr both) ↦ inr (
                  inr λ w.
                    omega (arith, same w, both w, total-append w s.pending.anchored s.pending.free))
            ])
      ]
