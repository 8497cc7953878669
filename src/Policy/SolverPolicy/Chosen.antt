-- ===== src/Policy/SolverPolicy/Chosen.antt =====
-- Which isolation rule of policy/src/solver_policy.rs decides: that of a most specific key for the asset.
use Prim.Native.Nat.{compare, Ordering}
use Prim.Native.Nat.Ordering.{lt, eq, gt}
use uni_pay.Policy.Assets.{AssetId}
use uni_pay.Policy.Collections.{asset_id_beq, calculate_asset_specificity, is_asset_id_match}
use uni_pay.Policy.Collections.Sorted.{lt≢gt}
use uni_pay.Policy.Collections.Specific.{asset_fits, named_parts, named_parts_lem}
use uni_pay.Policy.SolverPolicy.{Rules, compare_asset_specificity, insert_rule, is_gt, sort_rules}
use uni_pay.Policy.SolverPolicy.Arcs.{Arc}
use uni_pay.Policy.SolverPolicy.Checks.{allowed_by}
use uni_pay.Prelude.{
  All, All-weaken, Bool, Bool-cases, IsOrder, List, Option, [], any, ap, arith, compare-IsOrder,
  compare_list-IsOrder, false, flip, flip-IsOrder, get_elem?, inl, inr, key-IsOrder, list_eq,
  nat_eq, none, or_swap, refl, some, suc, sym, then_with, then_with-IsOrder, true, true≢false, ℕ,
  ◌||◌, ◌∙◌, ◌∷◌, ◌≡◌, ◌≢◌, ◌≤◌, ◌⊎◌,
}

-- The key that decides for an asset: it is the source of an arc, it fits, and no source of an arc that fits names more
-- parts; or there is none, since no source of an arc fits.
abbrev pub IsKey : List Arc → AssetId → Option AssetId → Type 0
IsKey xs a none = any (λ x. asset_fits a x.0) xs ≡ false
IsKey xs a (some k) =
    (asset_fits a k ≡ true)
    × (any (λ x. asset_id_beq x.0 k) xs ≡ true)
    × ((j : AssetId)
        → any (λ x. asset_id_beq x.0 j) xs ≡ true
        → asset_fits a j ≡ true
        → named_parts j ≤ named_parts k)

compare_asset_specificity-IsOrder : IsOrder compare_asset_specificity
unfolding compare_asset_specificity
compare_asset_specificity-IsOrder =
    then_with-IsOrder (key-IsOrder calculate_asset_specificity (flip-IsOrder compare-IsOrder)) (
      then_with-IsOrder (key-IsOrder (λ (a : AssetId). a.chain) compare_list-IsOrder)
        (key-IsOrder (λ (a : AssetId). a.token) compare_list-IsOrder))

as_named : (a b : ℕ) (o : Ordering) → then_with (flip (compare a b)) o ≢ gt → b ≤ a
as_named a b o h = ground arith

compare-named_parts :
    (a b : AssetId) → compare_asset_specificity a b ≢ gt → named_parts b ≤ named_parts a
unfolding compare_asset_specificity
compare-named_parts a b h =
    let more = as_named (calculate_asset_specificity a) (calculate_asset_specificity b) _ h in
    omega (arith, more, named_parts_lem a, named_parts_lem b)

abbrev pub AreSorted : Rules → Type 0
AreSorted [] = Unit
AreSorted (r ∷ rs) = All (λ x. compare_asset_specificity r.0 x.0 ≢ gt) rs × AreSorted rs

is_gt_cases : (o : Ordering) → ((o ≡ gt) × (is_gt o ≡ true)) ⊎ ((o ≢ gt) × (is_gt o ≡ false))
is_gt_cases lt = inr ((λ e. cc), refl)
is_gt_cases eq = inr ((λ e. cc), refl)
is_gt_cases gt = inl (refl, refl)

insert_rule-All :
    (P : AssetId × List AssetId → Type 0) (r : AssetId × List AssetId) (rs : Rules)
    → P r
    → All P rs
    → All P (insert_rule r rs)
unfolding insert_rule
insert_rule-All P r [] p h = (p, tt)
insert_rule-All P r (x ∷ xs) p h = elim (is_gt_cases (compare_asset_specificity r.0 x.0)) [
  | inl (_, after) ↦ rw after (h.0, insert_rule-All P r xs p h.1)
  | inr (_, before) ↦ rw before (p, h)
]

pub sort_rules-All :
    (P : AssetId × List AssetId → Type 0) (rs : Rules) → All P rs → All P (sort_rules rs)
unfolding sort_rules
sort_rules-All P [] h = tt
sort_rules-All P (r ∷ rs) h = insert_rule-All P r (sort_rules rs) h.0 (sort_rules-All P rs h.1)

insert_rule-any :
    (f : AssetId × List AssetId → Bool) (r : AssetId × List AssetId) (rs : Rules)
    → any f (insert_rule r rs) ≡ (f r || any f rs)
unfolding insert_rule
insert_rule-any f r [] = refl
insert_rule-any f r (x ∷ xs) = elim (is_gt_cases (compare_asset_specificity r.0 x.0)) [
  | inl (_, after) ↦
      rw after (ap (λ b. f x || b) (insert_rule-any f r xs) ∙ or_swap (f x) (f r) (any f xs))
  | inr (_, before) ↦ rw before refl
]

pub sort_rules-any :
    (f : AssetId × List AssetId → Bool) (rs : Rules) → any f (sort_rules rs) ≡ any f rs
unfolding sort_rules
sort_rules-any f [] = refl
sort_rules-any f (r ∷ rs) =
    insert_rule-any f r (sort_rules rs) ∙ ap (λ b. f r || b) (sort_rules-any f rs)

insert_rule-AreSorted :
    (r : AssetId × List AssetId) (rs : Rules) → AreSorted rs → AreSorted (insert_rule r rs)
unfolding insert_rule
insert_rule-AreSorted r [] h = (tt, tt)
insert_rule-AreSorted r (x ∷ xs) h = elim (is_gt_cases (compare_asset_specificity r.0 x.0)) [
  | inl (more, after) ↦
      let less : compare_asset_specificity x.0 r.0 ≢ gt =
        λ e. lt≢gt (sym (compare_asset_specificity-IsOrder.flips r.0 x.0 ∙ ap flip more) ∙ e) in
      rw after (
        insert_rule-All (λ y. compare_asset_specificity x.0 y.0 ≢ gt) r xs less h.0,
        insert_rule-AreSorted r xs h.1,
      )
  | inr (fine, before) ↦ rw before (
    (fine, All-weaken xs (λ y k. compare_asset_specificity-IsOrder.trans r.0 x.0 y.0 fine k) h.0),
    h,
  )
]

pub sort_rules-AreSorted : (rs : Rules) → AreSorted (sort_rules rs)
unfolding sort_rules
sort_rules-AreSorted [] = tt
sort_rules-AreSorted (r ∷ rs) = insert_rule-AreSorted r (sort_rules rs) (sort_rules-AreSorted rs)

-- The rule that a sorted table gives.
abbrev pub Gives : Rules → AssetId → Option (List AssetId) → Type 0
Gives rs a none = any (λ x. asset_fits a x.0) rs ≡ false
Gives rs a (some vs) =
    (k : AssetId) × (asset_fits a k ≡ true)
    × ((i : ℕ) × (get_elem? rs i ≡ some (k, vs)))
    × All (λ x. asset_fits a x.0 ≡ true → named_parts x.0 ≤ named_parts k) rs

pub allowed_by-Gives : (rs : Rules) (a : AssetId) → AreSorted rs → Gives rs a (allowed_by rs a)
unfolding allowed_by is_asset_id_match
allowed_by-Gives [] a h = refl
allowed_by-Gives ((k, vs) ∷ rs) a h = elim (Bool-cases (asset_fits a k)) [
  | inl fits ↦ rw fits (
    k,
    fits,
    (0, refl),
    ((λ _. omega arith), All-weaken rs (λ x n _. compare-named_parts k x.0 n) h.0),
  )
  | inr other ↦ rw other (later k vs rs a (allowed_by rs a) other (allowed_by-Gives rs a h.1))
]
  where
    later :
        (k : AssetId) (vs : List AssetId) (rs : Rules) (a : AssetId) (o : Option (List AssetId))
        → asset_fits a k ≡ false
        → Gives rs a o
        → Gives ((k, vs) ∷ rs) a o
    later k vs rs a none n h = rw n h
    later k vs rs a (some ws) n (j, fits, (i, at), best) =
        (j, fits, (suc i, at), ((λ e. absurd (true≢false (sym e ∙ n))), best))
