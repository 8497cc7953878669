-- ===== src/Policy/SolverPolicy/Configured.antt =====
-- Which override of a configuration a policy of policy/src/solver_policy.rs has for a pair.
use mathlib.Core.Path.{subst}
use uni_pay.Policy.Assets.{AssetPair}
use uni_pay.Policy.Collections.{
  BinarySearch, PolicyMap, are_asset_pairs_equal, insert, insert_at, or_else,
}
use uni_pay.Policy.Collections.Sorted.{
  IsDistinct, are_asset_pairs_equal_comm, are_asset_pairs_equal_refl,
}
use uni_pay.Policy.SolverPolicy.{Overrides, PolicyError, RouteOverride, override_map, parse_pair}
use uni_pay.Policy.SolverPolicy.Answers.{pair_eq}
use uni_pay.Prelude.{
  All, Bool, Bool-cases, List, Option, Result, [], any, ap, bind_ok, err, false, if◌then◌else◌, inl,
  inr, is_some, nat_eq, none, ok, ok_injective, or_left, or_right, refl, some, suc, sym, true, zero,
  ℕ, ◌||◌, ◌∙◌, ◌∷◌, ◌≡◌,
}

-- The value of the first entry for the pair itself.
abbrev pub value_at : {T : Type 0} → AssetPair → PolicyMap T → Option T
value_at p [] = none
value_at p ((q, v) ∷ m) = if are_asset_pairs_equal q p then some v else value_at p m

module _ {T : Type 0} where
  unknown_value :
      (p : AssetPair) (m : PolicyMap T)
      → any (λ e. are_asset_pairs_equal e.0 p) m ≡ false
      → value_at p m ≡ none
  unknown_value p [] h = refl
  unknown_value p ((q, v) ∷ m) h =
      rw (or_left (are_asset_pairs_equal q p) _ h)
        (unknown_value p m (or_right (are_asset_pairs_equal q p) _ h))

  known_value :
      (p : AssetPair) (m : PolicyMap T)
      → any (λ e. are_asset_pairs_equal e.0 p) m ≡ true
      → is_some (value_at p m) ≡ true
  known_value p [] h = cc
  known_value p ((q, v) ∷ m) h = elim (Bool-cases (are_asset_pairs_equal q p)) [
    | inl same ↦ rw same refl
    | inr other ↦
        rw other (
          known_value p m (ap (λ b. b || any (λ e. are_asset_pairs_equal e.0 p) m) (sym other) ∙ h))
  ]

  -- An entry with a new pair answers for that pair, wherever it stands.
  value_at-insert_at :
      (i : ℕ) (q p : AssetPair) (v : T) (m : PolicyMap T)
      → any (λ e. are_asset_pairs_equal e.0 q) m ≡ false
      → value_at p (insert_at i (q, v) m)
        ≡ (if are_asset_pairs_equal q p then some v else value_at p m)
  value_at-insert_at zero q p v m n = refl
  value_at-insert_at (suc i) q p v [] n = refl
  value_at-insert_at (suc i) q p v ((r, w) ∷ m) n = elim (Bool-cases (are_asset_pairs_equal r p)) [
    | inl first ↦
        let apart : are_asset_pairs_equal q p ≡ false =
          ap (are_asset_pairs_equal q) (sym (pair_eq r p first))
          ∙ are_asset_pairs_equal_comm q r
          ∙ or_left (are_asset_pairs_equal r q) _ n in
        rw (first, apart) refl
    | inr later ↦ rw later (value_at-insert_at i q p v m (or_right (are_asset_pairs_equal r q) _ n))
  ]

  value_at-insert :
      (search : BinarySearch) (q p : AssetPair) (v : T) (m : PolicyMap T)
      → value_at p (insert search q v m)
        ≡ or_else (value_at p m) (if are_asset_pairs_equal q p then some v else none)
  unfolding insert
  value_at-insert search q p v m = elim (Bool-cases (any (λ e. are_asset_pairs_equal e.0 q) m)) [
    | inl known ↦ rw known (elim (Bool-cases (are_asset_pairs_equal q p)) [
      | inl same ↦
          let there : is_some (value_at p m) ≡ true =
            ap (λ r. is_some (value_at r m)) (sym (pair_eq q p same)) ∙ known_value q m known in
          rw same (stays (value_at p m) (some v) there)
      | inr other ↦ rw other (sym (or_else-none (value_at p m)))
    ])
    | inr unknown ↦ rw unknown (
        value_at-insert_at _ q p v m unknown ∙ elim (Bool-cases (are_asset_pairs_equal q p)) [
          | inl same ↦
              let nowhere : value_at p m ≡ none =
                ap (λ r. value_at r m) (sym (pair_eq q p same)) ∙ unknown_value q m unknown in
              rw (same, nowhere) refl
          | inr other ↦ rw other (sym (or_else-none (value_at p m)))
        ])
  ]
    where
      stays : (o o' : Option T) → is_some o ≡ true → o ≡ or_else o o'
      stays none o' h = cc
      stays (some x) o' h = refl

      or_else-none : (o : Option T) → or_else o none ≡ o
      or_else-none none = refl
      or_else-none (some x) = refl

abbrev pub stands_for : AssetPair → Result PolicyError AssetPair → Bool
stands_for p (ok q) = are_asset_pairs_equal q p
stands_for p (err e) = false

-- What the configuration sets for a pair: the overrides of the first route that is that pair.
abbrev pub configured :
    {Fee : Type 0} → List (RouteOverride Fee) → AssetPair → Option (Overrides Fee)
configured [] p = none
configured (o ∷ os) p =
    if stands_for p (parse_pair o.route) then some o.overrides else configured os p

pub override_map-configured :
    {Fee : Type 0} (search : BinarySearch) (os : List (RouteOverride Fee))
    (m m' : PolicyMap (Overrides Fee)) (p : AssetPair)
    → override_map search os m ≡ ok m'
    → value_at p m' ≡ or_else (value_at p m) (configured os p)
unfolding override_map
override_map-configured search [] m m' p e =
    ap (value_at p) (sym (ok_injective e refl refl)) ∙ plain (value_at p m)
  where
    plain : {T : Type 0} (o : Option T) → o ≡ or_else o none
    plain none = refl
    plain (some x) = refl
override_map-configured search (o ∷ os) m m' p e =
    let (q, parsed, rest) = bind_ok (parse_pair o.route) _ e in
    override_map-configured search os (insert search q o.overrides m) m' p rest
    ∙ ap (λ t. or_else t (configured os p)) (value_at-insert search q p o.overrides m)
    ∙ regroup (value_at p m) (are_asset_pairs_equal q p) o.overrides (configured os p)
    ∙ ap
        (λ r. or_else (value_at p m) (if stands_for p r then some o.overrides else configured os p))
        (sym parsed)
  where
    regroup :
        {T : Type 0} (a : Option T) (b : Bool) (v : T) (c : Option T)
        → or_else (or_else a (if b then some v else none)) c ≡ or_else a (if b then some v else c)
    regroup none true v c = refl
    regroup none false v c = refl
    regroup (some x) b v c = refl

-- In a table without equal pairs each entry is what its pair has.
pub entries-value_at :
    {T : Type 0} (m : PolicyMap T) → IsDistinct m → All (λ e. value_at e.0 m ≡ some e.1) m
entries-value_at {T = T} [] h = tt
entries-value_at {T = T} ((p, v) ∷ m) h =
    (rw (are_asset_pairs_equal_refl p) refl, later m h.0 (entries-value_at m h.1))
  where
    later :
        (xs : PolicyMap T)
        → any (λ x. are_asset_pairs_equal x.0 p) xs ≡ false
        → All (λ e. value_at e.0 m ≡ some e.1) xs
        → All (λ e. value_at e.0 ((p, v) ∷ m) ≡ some e.1) xs
    later [] n k = tt
    later (x ∷ xs) n k = (
      rw (are_asset_pairs_equal_comm p x.0 ∙ or_left (are_asset_pairs_equal x.0 p) _ n) k.0,
      later xs (or_right (are_asset_pairs_equal x.0 p) _ n) k.1,
    )

-- What holds of every entry holds of the value that a pair has.
pub value_at-All :
    {T : Type 0} (P : AssetPair → T → Type 0) (p : AssetPair) (v : T) (m : PolicyMap T)
    → All (λ e. P e.0 e.1) m
    → value_at p m ≡ some v
    → P p v
value_at-All {T = T} P p v [] h e = cc
value_at-All {T = T} P p v ((q, w) ∷ m) h e = elim (Bool-cases (are_asset_pairs_equal q p)) [
  | inl same ↦
      let found : some w ≡ some v = ap (λ b. if b then some w else value_at p m) (sym same) ∙ e in
      let value : w ≡ v = cc in subst2 (pair_eq q p same) value h.0
  | inr other ↦
      value_at-All P p v m h.1 (ap (λ b. if b then some w else value_at p m) (sym other) ∙ e)
]
  where
    subst2 : {a b : AssetPair} {x y : T} → a ≡ b → x ≡ y → P a x → P b y
    subst2 {b = b} {x = x} s t h = subst (P b) t (subst (λ c. P c x) s h)
