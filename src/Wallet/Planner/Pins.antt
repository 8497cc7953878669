-- ===== src/Wallet/Planner/Pins.antt =====
-- A request that is pinned to an anchor is planned on that anchor only.
use mathlib.Core.Option
-- The shape of the pending buckets: `PendingState::from_requests`.
use uni_pay.Policy.Assets.{split}
use uni_pay.Prelude.{
  option_eq, All, All-append, All-weaken, Bool-cases, List, Option, Option-cases, [], arith,
  beq_of_eq, eq_of_beq, get_elem?, if◌then◌else◌, inl, inr, leb, length, none, refl, some, suc, sym,
  true≢false, ℕ, ◌++◌, ◌<◌, ◌==◌, ◌∙◌, ◌∷◌, ◌≡◌, ◌≢◌, ◌≤◌, ◌⊎◌,
}
use uni_pay.Wallet.Planner.{
  CostedAction, PlannedBatchAction, PlannerCostEvaluator, chained, fresh, lineage_of_anchor,
  plan_chained_group, rbf, request_output_count,
}
use uni_pay.Wallet.Planner.Coverage.{plan_chained_group-action, plan_free_only-action}
use uni_pay.Wallet.Planner.Groups.{Group, add_to_group, group_anchored_requests, group_from}
use uni_pay.Wallet.Planner.Plan.{plan_wallet_batches}
use uni_pay.Wallet.Planner.Safety.{BothKeep, plan_wallet_batches-All}
use uni_pay.Wallet.Types.{
  ChainAnchor, LineageId, LiveLineage, PendingState, PendingWalletRequest, WalletConfig,
  WalletRuntimeState, anchor_beq_iff, anchor_eq,
}

pub record IsSplit (pending : PendingState) : Type 0 where
  pub free_of_anchor : All (λ r. r.chain_anchor ≡ none) pending.free
  pub anchored : All (λ r. r.chain_anchor ≢ none) pending.anchored

abbrev pub IsGroup : Group → Type 0
IsGroup (a, rs) = All (λ r. r.chain_anchor ≡ some a) rs

add_to_group-IsGroup :
    (a : ChainAnchor) (r : PendingWalletRequest) (groups : List Group)
    → r.chain_anchor ≡ some a
    → All IsGroup groups
    → All IsGroup (add_to_group a r groups)
unfolding add_to_group
add_to_group-IsGroup a r [] e h = ((e, tt), tt)
add_to_group-IsGroup a r ((b, rs) ∷ groups) e h = elim (Bool-cases (b == a)) [
  | inl same ↦ rw same (
    All-append (λ r. r.chain_anchor ≡ some b) rs (r ∷ []) h.0
        (ground (arith, anchor_beq_iff b a), tt),
    h.1,
  )
  | inr other ↦ rw other (h.0, add_to_group-IsGroup a r groups e h.1)
]

group_from-IsGroup :
    (groups : List Group) (rs : List PendingWalletRequest)
    → All IsGroup groups
    → All IsGroup (group_from groups rs)
unfolding group_from
group_from-IsGroup groups [] h = h
group_from-IsGroup groups (r ∷ rs) h = elim (Option-cases r.chain_anchor) [
  | inl free ↦ rw free (group_from-IsGroup groups rs h)
  | inr (a, e) ↦
      simp e (group_from-IsGroup (add_to_group a r groups) rs (add_to_group-IsGroup a r groups e h))
]

-- The live lineage on the anchor with the least id, if there is one.
abbrev IsFound : List LiveLineage → ChainAnchor → Option LiveLineage → Type 0
IsFound ls a none = All (λ l. l.chain_anchor ≢ some a) ls
IsFound ls a (some l) =
    ((i : ℕ) × (get_elem? ls i ≡ some l))
    × (l.chain_anchor ≡ some a)
    × All (λ k. k.chain_anchor ≡ some a → l.lineage_id ≤ k.lineage_id) ls

lineage_of_anchor-IsFound :
    (ls : List LiveLineage) (a : ChainAnchor) → IsFound ls a (lineage_of_anchor ls a)
unfolding lineage_of_anchor
lineage_of_anchor-IsFound [] a = tt
lineage_of_anchor-IsFound (l ∷ ls) a = elim (Bool-cases (l.chain_anchor == some a)) [
  | inl same ↦ rw same (
      here (eq_of_beq l.chain_anchor (some a) same) (lineage_of_anchor ls a)
        (lineage_of_anchor-IsFound ls a))
  | inr other ↦ rw other (
      later (λ e. true≢false (sym (beq_of_eq l.chain_anchor (some a) e) ∙ other))
        (lineage_of_anchor ls a) (lineage_of_anchor-IsFound ls a))
]
  where
    here :
        l.chain_anchor ≡ some a
        → (o : Option LiveLineage) → IsFound ls a o
        → IsFound (l ∷ ls) a (elim o [
          | none ↦ some l
          | some b ↦ if leb l.lineage_id b.lineage_id then some l else some b
        ])
    here e none h = ((0, refl), e, ((λ _. omega arith), All-weaken ls (λ k n p. absurd (n p)) h))
    here e (some b) ((i, at), p, least) = elim (Bool-cases (leb l.lineage_id b.lineage_id)) [
      | inl low ↦
          let below : l.lineage_id ≤ b.lineage_id = ground arith in
          rw low (
            (0, refl),
            e,
            ((λ _. omega arith), All-weaken ls (λ k f q. omega (arith, f q, below)) least),
          )
      | inr high ↦ rw high ((suc i, at), p, ((λ _. ground arith), least))
    ]

    later :
        l.chain_anchor ≢ some a → (o : Option LiveLineage) → IsFound ls a o → IsFound (l ∷ ls) a o
    later n none h = (n, h)
    later n (some b) ((i, at), p, least) = ((suc i, at), p, ((λ q. absurd (n q)), least))

-- The id of the live lineage on the anchor with the least id; none, if no live lineage is on it.
abbrev pub IsLineageOf : List LiveLineage → ChainAnchor → Option LineageId → Type 0
IsLineageOf ls a none = All (λ l. l.chain_anchor ≢ some a) ls
IsLineageOf ls a (some id) =
    ((i : ℕ) × (l : LiveLineage) × (get_elem? ls i ≡ some l)
      × (l.lineage_id ≡ id)
      × (l.chain_anchor ≡ some a))
    × All (λ k. k.chain_anchor ≡ some a → id ≤ k.lineage_id) ls

found-IsLineageOf :
    (ls : List LiveLineage) (a : ChainAnchor) (o : Option LiveLineage)
    → IsFound ls a o
    → IsLineageOf ls a (Option.map (λ l. l.lineage_id) o)
found-IsLineageOf ls a none h = h
found-IsLineageOf ls a (some l) ((i, at), p, least) = ((i, l, at, refl, p), least)

module _ (s : WalletRuntimeState) (config : WalletConfig) where
  -- The builder's and the runtime's limits, and the anchors of the requests.
  abbrev pub IsSound : PlannedBatchAction → Type 0
  IsSound (fresh rs) =
      (request_output_count rs ≤ config.max_outputs_per_batch)
      × (length s.live_lineages < config.max_concurrent_lineages)
      × All (λ r. r.chain_anchor ≡ none) rs
  IsSound (rbf _ _) = ⊥
  IsSound (chained lineage a rs) =
      (request_output_count rs ≤ config.max_outputs_per_batch)
      × IsLineageOf s.live_lineages a lineage
      × All (λ r. (r.chain_anchor ≡ some a) ⊎ (r.chain_anchor ≡ none)) rs

All-inl :
    (a : ChainAnchor) (rs : List PendingWalletRequest)
    → All (λ r. r.chain_anchor ≡ some a) rs
    → All (λ r. (r.chain_anchor ≡ some a) ⊎ (r.chain_anchor ≡ none)) rs
All-inl a [] h = tt
All-inl a (r ∷ rs) h = (inl h.0, All-inl a rs h.1)

All-inr :
    (a : ChainAnchor) (rs : List PendingWalletRequest)
    → All (λ r. r.chain_anchor ≡ none) rs
    → All (λ r. (r.chain_anchor ≡ some a) ⊎ (r.chain_anchor ≡ none)) rs
All-inr a [] h = tt
All-inr a (r ∷ rs) h = (inr h.0, All-inr a rs h.1)

module _ (s : WalletRuntimeState) (config : WalletConfig) (evaluator : PlannerCostEvaluator) where
  chained-IsSound :
      (a : ChainAnchor) (rs : List PendingWalletRequest)
      → All (λ r. (r.chain_anchor ≡ some a) ⊎ (r.chain_anchor ≡ none)) rs
      → (c : CostedAction) → plan_chained_group s config evaluator a rs ≡ some c
      → IsSound s config c.action
  chained-IsSound a rs pins c e =
      let (shape, fits) = plan_chained_group-action s config evaluator a rs e in
      rw shape (
        fits,
        found-IsLineageOf s.live_lineages a (lineage_of_anchor s.live_lineages a)
            (lineage_of_anchor-IsFound s.live_lineages a),
        pins,
      )

  groups-IsSound :
      (groups : List Group)
      → All (λ r. r.chain_anchor ≡ none) s.pending.free
      → All IsGroup groups
      → All (λ (g : Group). BothKeep s config evaluator (IsSound s config) g.0 g.1) groups
  groups-IsSound [] free h = tt
  groups-IsSound ((a, rs) ∷ groups) free h = (
    (
      chained-IsSound a rs (All-inl a rs h.0),
      chained-IsSound a (rs ++ s.pending.free)
          (All-append _ rs s.pending.free (All-inl a rs h.0) (All-inr a s.pending.free free)),
    ),
    groups-IsSound groups free h.1,
  )

  -- With the pending requests split by anchor, every planned action respects the output cap; a
  -- fresh batch needs a free lineage slot and has no pinned request; no action replaces a
  -- transaction; and a chained batch names the live lineage on its anchor with the least id, or none if no
  -- live lineage is on it, and has only requests that
  -- are pinned to its anchor or not pinned.
  pub plan_wallet_batches-IsSound :
      IsSplit s.pending → All (IsSound s config) (plan_wallet_batches s config evaluator)
  plan_wallet_batches-IsSound split =
      plan_wallet_batches-All s config evaluator (IsSound s config)
        (λ c e.
          let (shape, fits, slot) = plan_free_only-action s config evaluator s.pending.free e in
          rw shape (fits, slot, split.free_of_anchor))
        (groups-IsSound (group_anchored_requests s.pending.anchored) split.free_of_anchor
          (unfold group_anchored_requests in group_from-IsGroup [] s.pending.anchored tt))
