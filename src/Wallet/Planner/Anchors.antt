-- ===== src/Wallet/Planner/Anchors.antt =====
-- Each anchor is spent by one batch of a plan at most.
-- The anchors that the batches of a plan spend, in order.
use uni_pay.Prelude.{
  All, All-get_elem?, Bool-cases, IsUnique, List, Option, Option-cases, [], ap, beq_congr,
  beq_ne_symm, contains, get_elem?, inl, inr, is_empty, none, or-eq_false, or_absorb, or_assoc,
  or_false, refl, set, some, suc, sym, zero, ℕ, ◌&&◌, ◌++◌, ◌==◌, ◌||◌, ◌∙◌, ◌∷◌, ◌≡◌,
}
use uni_pay.TxBuilder.Cover.{new}
use uni_pay.Wallet.Planner.{
  CostedAction, PlannedBatchAction, PlannerCostEvaluator, chained, fresh, plan_free_only, rbf,
}
use uni_pay.Wallet.Planner.Coverage.{
  IsPlaced, IsPlanned, best-IsPlaced, plan_chained_group-action, plan_free_only-action,
  plan_groups-IsPlanned, plan_groups-nil, plan_groups_cases,
}
use uni_pay.Wallet.Planner.Groups.{Group, add_to_group, group_anchored_requests, group_from}
use uni_pay.Wallet.Planner.Plan.{
  Assignment, GroupChoice, actions_of, assign, plan_anchored, plan_free, plan_from, plan_groups,
  plan_wallet_batches,
}
use uni_pay.Wallet.Planner.Theorems.{get_elem?-actions_of}
use uni_pay.Wallet.Types.{
  ChainAnchor, PendingWalletRequest, WalletConfig, WalletRuntimeState, anchor_eq,
}

abbrev pub anchor_of : PlannedBatchAction → List ChainAnchor
anchor_of (fresh _) = []
anchor_of (rbf _ _) = []
anchor_of (chained _ a _) = a ∷ []

abbrev pub spent_anchors : List PlannedBatchAction → List ChainAnchor
spent_anchors [] = []
spent_anchors (x ∷ xs) = anchor_of x ++ spent_anchors xs

abbrev pub group_anchors : List Group → List ChainAnchor
group_anchors [] = []
group_anchors ((a, _) ∷ groups) = a ∷ group_anchors groups

contains-add_to_group :
    (b a : ChainAnchor) (r : PendingWalletRequest) (groups : List Group)
    → contains (group_anchors (add_to_group a r groups)) b
      ≡ (contains (group_anchors groups) b || a == b)
unfolding add_to_group
contains-add_to_group b a r [] = or_false (a == b)
contains-add_to_group b a r ((c, rs) ∷ groups) = elim (Bool-cases (c == a)) [
  | inl same ↦
      rw same
        (or_absorb (c == b) (contains (group_anchors groups) b) (a == b) (beq_congr c a b same))
  | inr other ↦
      rw (other, contains-add_to_group b a r groups)
        (or_assoc (c == b) (contains (group_anchors groups) b) (a == b))
]

add_to_group-IsUnique :
    (a : ChainAnchor) (r : PendingWalletRequest) (groups : List Group)
    → IsUnique (group_anchors groups)
    → IsUnique (group_anchors (add_to_group a r groups))
unfolding add_to_group
add_to_group-IsUnique a r [] h = (refl, tt)
add_to_group-IsUnique a r ((c, rs) ∷ groups) h = elim (Bool-cases (c == a)) [
  | inl same ↦ rw same h
  | inr other ↦ rw other (
    rw contains-add_to_group
        (or-eq_false (contains (group_anchors groups) c) (a == c) h.0 (beq_ne_symm c a other)),
    add_to_group-IsUnique a r groups h.1,
  )
]

group_from-IsUnique :
    (groups : List Group) (rs : List PendingWalletRequest)
    → IsUnique (group_anchors groups)
    → IsUnique (group_anchors (group_from groups rs))
unfolding group_from
group_from-IsUnique groups [] h = h
group_from-IsUnique groups (r ∷ rs) h = elim (Option-cases r.chain_anchor) [
  | inl free ↦ rw free (group_from-IsUnique groups rs h)
  | inr (a, e) ↦
      rw e (group_from-IsUnique (add_to_group a r groups) rs (add_to_group-IsUnique a r groups h))
]

spent_anchors-append_fresh :
    (xs : List PlannedBatchAction) (rs : List PendingWalletRequest)
    → spent_anchors (xs ++ fresh rs ∷ []) ≡ spent_anchors xs
spent_anchors-append_fresh [] rs = refl
spent_anchors-append_fresh (x ∷ xs) rs =
    ap (λ l. anchor_of x ++ l) (spent_anchors-append_fresh xs rs)

spent_anchors-set :
    (xs : List PlannedBatchAction) (i : ℕ) (x y : PlannedBatchAction)
    → get_elem? xs i ≡ some x
    → anchor_of y ≡ anchor_of x
    → spent_anchors (set xs i y) ≡ spent_anchors xs
spent_anchors-set [] i x y e same = refl
spent_anchors-set (z ∷ zs) zero x y e same =
    let found : z ≡ x = cc in ap (λ l. l ++ spent_anchors zs) (same ∙ ap anchor_of (sym found))
spent_anchors-set (z ∷ zs) (suc i) x y e same =
    ap (λ l. anchor_of z ++ l) (spent_anchors-set zs i x y e same)

module _ (s : WalletRuntimeState) (config : WalletConfig) (evaluator : PlannerCostEvaluator) where
  spent_anchors-plan_groups :
      (groups : List Group) (choices : List GroupChoice)
      → plan_groups s config evaluator groups ≡ some choices
      → spent_anchors (actions_of choices) ≡ group_anchors groups
  spent_anchors-plan_groups [] choices e = rw (plan_groups-nil s config evaluator e)
  spent_anchors-plan_groups ((a, rs) ∷ groups) choices e =
      let (c, rest, own, more, shape) =
        plan_groups_cases s config evaluator a rs groups choices e in
      rw shape (
        rw (plan_chained_group-action s config evaluator a rs own).0
          (ap (λ l. a ∷ l) (spent_anchors-plan_groups groups rest more)))

  spent_anchors-assign :
      (choices : List GroupChoice) (best : Option Assignment)
      → All (IsPlanned s config evaluator) choices
      → IsPlaced s config evaluator choices best
      → spent_anchors (assign best (actions_of choices)) ≡ spent_anchors (actions_of choices)
  spent_anchors-assign choices none planned placed = refl
  spent_anchors-assign choices (some (none, c, _)) planned placed =
      rw (plan_free_only-action s config evaluator s.pending.free placed).0
        (spent_anchors-append_fresh (actions_of choices) s.pending.free)
  spent_anchors-assign choices (some (some i, c, _)) planned (g, at, p) =
      let own = All-get_elem? (IsPlanned s config evaluator) choices i g planned at in
      let (old, _) = plan_chained_group-action s config evaluator g.chain_anchor g.requests own in
      let (new, _) =
        plan_chained_group-action s config evaluator g.chain_anchor (g.requests ++ s.pending.free)
          p in
      spent_anchors-set (actions_of choices) i g.choice.action c.action
        (get_elem?-actions_of s config evaluator choices i at)
        (ap anchor_of new ∙ sym (ap anchor_of old))

  spent_anchors-plan_anchored :
      (groups : List Group) (o : Option (List GroupChoice))
      → plan_groups s config evaluator groups ≡ o
      → IsUnique (group_anchors groups)
      → IsUnique (spent_anchors (plan_anchored s config evaluator o))
  spent_anchors-plan_anchored groups none e h = tt
  spent_anchors-plan_anchored groups (some choices) e h =
      let alone = spent_anchors-plan_groups groups choices e in
      elim (Bool-cases (is_empty s.pending.free)) [
        | inl no_free ↦ rw (no_free, alone) h
        | inr free ↦
            rw
              (
                free,
                spent_anchors-assign choices _
                    (plan_groups-IsPlanned s config evaluator groups choices e)
                    (best-IsPlaced s config evaluator choices),
                alone,
              )
              h
      ]

  spent_anchors-plan_free :
      (o : Option CostedAction)
      → plan_free_only s config evaluator s.pending.free ≡ o
      → IsUnique (spent_anchors (plan_free s config evaluator o))
  spent_anchors-plan_free none e = tt
  spent_anchors-plan_free (some c) e =
      rw (plan_free_only-action s config evaluator s.pending.free e).0 tt

  spent_anchors-plan_from :
      (groups : List Group)
      → IsUnique (group_anchors groups)
      → IsUnique (spent_anchors (plan_from s config evaluator groups))
  spent_anchors-plan_from [] h = spent_anchors-plan_free _ refl
  spent_anchors-plan_from (g ∷ gs) h = spent_anchors-plan_anchored (g ∷ gs) _ refl h

  -- No two batches of one plan are chained to the same anchor, that is, to one with the same confirmed transaction, change
  -- output, value, script and height.
  pub spent_anchors-IsUnique : IsUnique (spent_anchors (plan_wallet_batches s config evaluator))
  unfolding plan_wallet_batches group_anchored_requests
  spent_anchors-IsUnique =
      elim (Bool-cases (is_empty s.pending.free && is_empty s.pending.anchored)) [
        | inl idle ↦ rw idle tt
        | inr work ↦ rw work (
            spent_anchors-plan_from (group_anchored_requests s.pending.anchored)
              (group_from-IsUnique [] s.pending.anchored tt))
      ]
