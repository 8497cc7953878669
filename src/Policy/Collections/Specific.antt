-- ===== src/Policy/Collections/Specific.antt =====
-- The lookups of policy/src/collections.rs return the value of a most specific pair.
use mathlib.Core.Path.{subst}
use Prim.Native.Nat.{compare, Ordering}
use Prim.Native.Nat.Ordering.{gt}
use uni_pay.Policy.Assets.{AssetId, AssetPair, PairDirection, both, forward}
use uni_pay.Policy.Collections.{
  PolicyMap, answers_forward, answers_reverse, calculate_asset_specificity,
  compare_asset_pair_specificity, find_map, get, is_asset_id_match, is_asset_pair_match, is_both,
  is_direction_match, or_else,
}
use uni_pay.Policy.Collections.Sorted.{IsSorted}
use uni_pay.Prelude.{
  All, All-weaken, Bool, Bool-cases, Option, Text, [], ap, arith, codes, false, flip, if◌then◌else◌,
  inl, inr, is_some, list_eq, nat_eq, none, refl, some, sym, then_with, true, true≢false, ℕ, ◌&&◌,
  ◌++◌, ◌+◌, ◌<◌, ◌==◌, ◌||◌, ◌∙◌, ◌∷◌, ◌≡◌, ◌≢◌, ◌≤◌, ◌⊎◌,
}

-- Texts that fit: a wildcard fits every text.
abbrev pub text_fits : Text → Text → Bool
text_fits a b = a == codes "*" || b == codes "*" || a == b

abbrev pub asset_fits : AssetId → AssetId → Bool
asset_fits a b = text_fits a.chain b.chain && text_fits a.token b.token

-- How many parts of an asset are named.
abbrev pub named_parts : AssetId → ℕ
named_parts a = (if a.chain == codes "*" then 0 else 1) + (if a.token == codes "*" then 0 else 1)

pub named_parts_lem : (a : AssetId) → calculate_asset_specificity a ≡ named_parts a
unfolding calculate_asset_specificity
named_parts_lem a = elim (Bool-cases (a.chain == codes "*")) [
  | inl any_chain ↦ elim (Bool-cases (a.token == codes "*")) [
    | inl any_token ↦ rw (any_chain, any_token) refl
    | inr token ↦ rw (any_chain, token) refl
  ]
  | inr chain ↦ elim (Bool-cases (a.token == codes "*")) [
    | inl any_token ↦ rw (chain, any_token) refl
    | inr token ↦ rw (chain, token) refl
  ]
]

-- The pair is for the query, in its own direction or, if it is for both, in the other.
abbrev pub answers : AssetId → AssetId → AssetPair → Bool
answers s d p =
    (asset_fits s p.source && asset_fits d p.destination)
    || (is_both p.direction && (asset_fits d p.source && asset_fits s p.destination))

pub answers_lem :
    (s d : AssetId) (p : AssetPair)
    → (answers_forward s d p || answers_reverse s d p) ≡ answers s d p
unfolding is_asset_pair_match is_asset_id_match
answers_lem s d p =
    by_direction (asset_fits s p.source) (asset_fits d p.destination) (asset_fits d p.source)
      (asset_fits s p.destination) p.direction
  where
    by_direction :
        (a b c e : Bool) (x : PairDirection)
        → (a && b && is_direction_match forward x
            || is_both x && (c && e && is_direction_match forward x))
          ≡ (a && b || is_both x && (c && e))
    by_direction a b c e forward = ground arith
    by_direction a b c e both = ground arith

-- The source of the first pair has more parts that are not a wildcard, or as many, and then its destination has
-- at least as many.
abbrev pub IsAsSpecific : AssetPair → AssetPair → Type 0
IsAsSpecific p q =
    (named_parts q.source < named_parts p.source)
    ⊎ ((named_parts q.source ≡ named_parts p.source)
        × (named_parts q.destination ≤ named_parts p.destination))

as_specific_from :
    (a b c d : ℕ) (o : Ordering)
    → then_with (flip (compare a b)) (then_with (flip (compare c d)) o) ≢ gt
    → (b < a) ⊎ ((b ≡ a) × (d ≤ c))
as_specific_from a b c d o h = ground arith

compare-IsAsSpecific :
    (p q : AssetPair) → compare_asset_pair_specificity p q ≢ gt → IsAsSpecific p q
unfolding compare_asset_pair_specificity
compare-IsAsSpecific p q h =
    elim (as_specific_from (calculate_asset_specificity p.source)
      (calculate_asset_specificity q.source) (calculate_asset_specificity p.destination)
      (calculate_asset_specificity q.destination) _ h) [
        | inl more ↦ inl (omega (arith, more, named_parts_lem p.source, named_parts_lem q.source))
        | inr (same, more) ↦ inr (
          omega (arith, same, named_parts_lem p.source, named_parts_lem q.source),
          omega (arith, more, named_parts_lem p.destination, named_parts_lem q.destination),
        )
      ]

module _ {T R : Type 0} (s d : AssetId) (f : T → Option R) where
  -- The result is that of an entry which is for the query, and no entry for the query that has a result is more
  -- specific.
  abbrev pub Finds : PolicyMap T → R → Type 0
  Finds m r =
      (before after : PolicyMap T) × (p : AssetPair) × (v : T) × (m ≡ before ++ (p, v) ∷ after)
      × (answers s d p ≡ true)
      × (f v ≡ some r)
      × All (λ x. answers s d x.0 ≡ true → is_some (f x.1) ≡ true → IsAsSpecific p x.0) m

  abbrev pub IsFound : PolicyMap T → Option R → Type 0
  IsFound m none = All (λ x. answers s d x.0 ≡ true → f x.1 ≡ none) m
  IsFound m (some r) = Finds m r

  -- One entry of the loop, by whether it is for the query.
  entry_lem :
      (b c : Bool) (o rest : Option R)
      → or_else (if b then o else none) (or_else (if c then o else none) rest)
        ≡ (if b || c then or_else o rest else rest)
  entry_lem true true none rest = refl
  entry_lem true true (some r) rest = refl
  entry_lem true false none rest = refl
  entry_lem true false (some r) rest = refl
  entry_lem false true o rest = refl
  entry_lem false false o rest = refl

  skipped_entry :
      (p : AssetPair) (v : T) (m : PolicyMap T) (o : Option R)
      → (answers s d p ≡ true → f v ≡ none)
      → IsFound m o
      → IsFound ((p, v) ∷ m) o
  skipped_entry p v m none n h = (n, h)
  skipped_entry p v m (some r) n (before, after, q, w, split_at, for_it, result, best) = (
    (p, v) ∷ before,
    after,
    q,
    w,
    ap (λ l. (p, v) ∷ l) split_at,
    for_it,
    result,
    (λ a i. absurd (none_some (f v) (n a) i), best),
  )
    where
      none_some : (o : Option R) → o ≡ none → is_some o ≢ true
      none_some none e i = cc
      none_some (some r) e i = cc

  first_entry :
      (p : AssetPair) (v : T) (m : PolicyMap T) (r : R)
      → answers s d p ≡ true
      → f v ≡ some r
      → All (λ x. compare_asset_pair_specificity p x.0 ≢ gt) m
      → Finds ((p, v) ∷ m) r
  first_entry p v m r a e h = (
    [],
    m,
    p,
    v,
    refl,
    a,
    e,
    (λ _ _. inr (refl, omega arith), All-weaken m (λ x k _ _. compare-IsAsSpecific p x.0 k) h),
  )

  -- In a sorted table `find_map` returns the value's result of an entry that is for the query, such that no entry for
  -- the query with a result is more specific; and it returns nothing exactly if no entry for the query has a result.
  pub find_map-IsFound : (m : PolicyMap T) → IsSorted m → IsFound m (find_map s d f m)
  unfolding find_map
  find_map-IsFound [] h = tt
  find_map-IsFound ((p, v) ∷ m) h =
      let rest = find_map s d f m in
      subst (IsFound ((p, v) ∷ m))
        (sym (
          entry_lem (answers_forward s d p) (answers_reverse s d p) (f v) rest
          ∙ ap (λ b. if b then or_else (f v) rest else rest) (answers_lem s d p)))
        (chosen (answers s d p) refl (f v) refl (find_map-IsFound m h.1))
    where
      chosen :
          (b : Bool)
          → answers s d p ≡ b
          → (o : Option R) → f v ≡ o
          → IsFound m (find_map s d f m)
          → IsFound ((p, v) ∷ m) (if b then or_else o (find_map s d f m) else find_map s d f m)
      chosen false a o e k =
          skipped_entry p v m (find_map s d f m) (λ t. absurd (true≢false (sym t ∙ a))) k
      chosen true a none e k = skipped_entry p v m (find_map s d f m) (λ _. e) k
      chosen true a (some r) e k = first_entry p v m r a e h.0

-- `get` is `find_map` with every value as its result.
pub get-find_map :
    {T : Type 0} (s d : AssetId) (m : PolicyMap T) → get s d m ≡ find_map s d (λ v. some v) m
unfolding get find_map
get-find_map s d [] = refl
get-find_map s d ((p, v) ∷ m) = elim (Bool-cases (answers_forward s d p)) [
  | inl ahead ↦ rw ahead
  | inr other ↦ elim (Bool-cases (answers_reverse s d p)) [
    | inl back ↦ rw (other, back)
    | inr no_match ↦ rw (other, no_match) (get-find_map s d m)
  ]
]
