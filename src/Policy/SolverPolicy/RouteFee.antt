-- ===== src/Policy/SolverPolicy/RouteFee.antt =====
-- The fees of a policy that policy/src/solver_policy.rs builds from a configuration.
use mathlib.Core.Path.{subst}
use uni_pay.Policy.Assets.{AssetId, AssetPair}
use uni_pay.Policy.Collections.{BinarySearch, PolicyMap, find_map, insert}
use uni_pay.Policy.Collections.Sorted.{IsDistinct, IsSorted, insert-IsSorted}
use uni_pay.Policy.Collections.Specific.{IsAsSpecific, IsFound, answers, find_map-IsFound}
use uni_pay.Policy.SolverPolicy.{
  Overrides, RouteOverride, SolverPolicy, SolverPolicyConfig, new_policy, override_map, parse_pair,
}
use uni_pay.Policy.SolverPolicy.Built.{tables}
use uni_pay.Policy.SolverPolicy.Checks.{get_fee}
use uni_pay.Policy.SolverPolicy.Configured.{
  configured, entries-value_at, override_map-configured, value_at, value_at-All,
}
use uni_pay.Prelude.{
  All, List, Option, Text, [], bind_ok, inl, inr, is_some, none, ok, ok_injective, refl, some, sym,
  true, unwrap_or, ◌++◌, ◌∙◌, ◌∷◌, ◌≡◌, ◌⊎◌,
}

override_map-IsSorted :
    {Fee : Type 0} (search : BinarySearch) (os : List (RouteOverride Fee))
    (m m' : PolicyMap (Overrides Fee))
    → IsSorted m
    → IsDistinct m
    → override_map search os m ≡ ok m'
    → IsSorted m' × IsDistinct m'
unfolding override_map
override_map-IsSorted search [] m m' h k e =
    subst (λ x. IsSorted x × IsDistinct x) (ok_injective e refl refl) (h, k)
override_map-IsSorted search (o ∷ os) m m' h k e =
    let (p, _, rest) = bind_ok (parse_pair o.route) _ e in
    let (sorted, distinct) = insert-IsSorted search p o.overrides m h k in
    override_map-IsSorted search os (insert search p o.overrides m) m' sorted distinct rest

-- The fee is that of what the configuration sets for a pair that is for the route, no pair for the route which sets
-- a fee is more specific; or it is the usual fee, and no pair for the route sets one.
abbrev pub IsRouteFee :
    {Fee : Type 0} → List (RouteOverride Fee) → Fee → AssetId → AssetId → Fee → Type 0
IsRouteFee {Fee} os usual s d fee =
    ((fee ≡ usual)
      × ((q : AssetPair) (w : Overrides Fee)
          → configured os q ≡ some w
          → answers s d q ≡ true
          → w.fee ≡ none))
    ⊎ ((p : AssetPair) × (v : Overrides Fee) × (configured os p ≡ some v)
        × (answers s d p ≡ true)
        × (v.fee ≡ some fee)
        × ((q : AssetPair) (w : Overrides Fee)
            → configured os q ≡ some w
            → answers s d q ≡ true
            → is_some w.fee ≡ true
            → IsAsSpecific p q))

All-last :
    {A : Type 0} (P : A → Type 0) (before : List A) (x : A) (after : List A)
    → All P (before ++ x ∷ after)
    → P x
All-last P [] x after h = h.0
All-last P (y ∷ ys) x after h = All-last P ys x after h.1

-- In a policy that was built from a configuration the fee of a route is one that the configuration sets, by the first
-- override for some pair, where the pair is for the route and no pair for the route whose first override sets
-- a fee is more specific; or it is the configuration's default fee, if no pair for the route has a
-- first override that sets one.
pub get_fee-IsRouteFee :
    {Fee : Type 0} (search : BinarySearch) (c : SolverPolicyConfig Fee) (assets : List Text)
    (p : SolverPolicy Fee) (s d : AssetId)
    → new_policy search c assets ≡ ok p
    → IsRouteFee c.overrides c.default_fee s d (get_fee p s d)
unfolding get_fee
get_fee-IsRouteFee {Fee} search c assets p s d built =
    let (_, _, routes, same) = tables search c assets p built in
    let (sorted, distinct) = override_map-IsSorted search c.overrides [] p.overrides tt tt routes in
    chosen same (λ q. override_map-configured search c.overrides [] p.overrides q routes) distinct
      (find_map s d (λ o. o.fee) p.overrides) (find_map-IsFound s d (λ o. o.fee) p.overrides sorted)
  where
    chosen :
        c.default_fee ≡ p.default_fee
        → ((q : AssetPair) → value_at q p.overrides ≡ configured c.overrides q)
        → IsDistinct p.overrides
        → (o : Option Fee) → IsFound s d (λ v. v.fee) p.overrides o
        → IsRouteFee c.overrides c.default_fee s d (unwrap_or p.default_fee o)
    chosen same at distinct none h = inl (
      sym same,
      λ q w e a.
          value_at-All (λ r x. answers s d r ≡ true → x.fee ≡ none) q w p.overrides h (at q ∙ e) a,
    )
    chosen same at distinct (some fee) (before, after, q, v, split_at, for_it, sets, best) =
        let here : value_at q p.overrides ≡ some v =
          All-last (λ (e : AssetPair × Overrides Fee). value_at e.0 p.overrides ≡ some e.1) before
            (q, v) after
            (subst (All (λ (e : AssetPair × Overrides Fee). value_at e.0 p.overrides ≡ some e.1))
              split_at (entries-value_at p.overrides distinct)) in
        inr (
          q,
          v,
          sym (at q) ∙ here,
          for_it,
          sets,
          λ r w e a i.
              value_at-All (λ x y. answers s d x ≡ true → is_some y.fee ≡ true → IsAsSpecific q x) r
                w p.overrides best (at r ∙ e) a i,
        )
