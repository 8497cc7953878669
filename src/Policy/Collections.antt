-- ===== src/Policy/Collections.antt =====
-- The rule tables of Tars-rs/crates/policy/src/{common,collections}.rs: `PolicyMap` and `PolicySet`. A table is
-- a list of pairs with values, the most specific pair first.
pub mod Sorted
pub mod Specific
use Prim.Native.Nat.{compare, Ordering}
use Prim.Native.Nat.Ordering.{lt, eq, gt}
use uni_pay.Policy.Assets.{AssetId, AssetPair, PairDirection, asset_id_to_string, both, forward}
use uni_pay.Prelude.{
  All, Bool, List, Option, Text, [], any, compare_list, false, flip, if◌then◌else◌, is_some,
  list_eq, map, nat_eq, none, not, some, suc, then_with, true, zero, ℕ, ◌&&◌, ◌+◌, ◌==◌, ◌||◌, ◌∷◌,
  ◌≡◌, ◌≢◌,
}
use uni_pay.Store.Restore.{position}

abbrev pub star : Text
star = b'*' ∷ []

-- `is_asset_id_match`: a wildcard on either side matches.
unfoldable pub is_asset_id_match : AssetId → AssetId → Bool
is_asset_id_match source destination =
    (source.chain == star || destination.chain == star || source.chain == destination.chain)
    && (source.token == star || destination.token == star || source.token == destination.token)

abbrev pub is_direction_match : PairDirection → PairDirection → Bool
is_direction_match both d = true
is_direction_match forward both = true
is_direction_match forward forward = true

unfoldable pub is_asset_pair_match : AssetPair → AssetPair → Bool
unfolding is_asset_id_match
is_asset_pair_match p q =
    is_asset_id_match p.source q.source
    && is_asset_id_match p.destination q.destination
    && is_direction_match p.direction q.direction

abbrev pub asset_id_beq : AssetId → AssetId → Bool
asset_id_beq a b = a.chain == b.chain && a.token == b.token

abbrev pub direction_beq : PairDirection → PairDirection → Bool
direction_beq forward forward = true
direction_beq both both = true
direction_beq _ _ = false

unfoldable pub are_asset_pairs_equal : AssetPair → AssetPair → Bool
are_asset_pairs_equal a b =
    asset_id_beq a.source b.source
    && direction_beq a.direction b.direction
    && asset_id_beq a.destination b.destination

abbrev count_if : Bool → ℕ
count_if b = if b then 1 else 0

-- How many of the two parts are not a wildcard.
unfoldable pub calculate_asset_specificity : AssetId → ℕ
calculate_asset_specificity a = count_if (not (a.chain == star)) + count_if (not (a.token == star))

-- The more specific source first, then the more specific destination, then by the printed names.
unfoldable pub compare_asset_pair_specificity : AssetPair → AssetPair → Ordering
unfolding calculate_asset_specificity asset_id_to_string
compare_asset_pair_specificity a b =
    then_with
      (flip (compare (calculate_asset_specificity a.source) (calculate_asset_specificity b.source)))
      (then_with
        (flip (
          compare (calculate_asset_specificity a.destination)
            (calculate_asset_specificity b.destination)))
        (then_with (compare_list (asset_id_to_string a.source) (asset_id_to_string b.source))
          (compare_list (asset_id_to_string a.destination) (asset_id_to_string b.destination))))

abbrev pub asset_pair : AssetId → AssetId → AssetPair
asset_pair source destination = record {
  source = source;
  direction = forward;
  destination = destination;
}

abbrev pub or_else {ℓ} : {A : Type ℓ} → Option A → Option A → Option A
or_else none o = o
or_else (some a) o = some a

abbrev pub is_both : PairDirection → Bool
is_both forward = false
is_both both = true

-- A stored pair answers a query in its own direction, and one for both directions also in the other.
abbrev pub answers_forward : AssetId → AssetId → AssetPair → Bool
answers_forward s d p = is_asset_pair_match (asset_pair s d) p

abbrev pub answers_reverse : AssetId → AssetId → AssetPair → Bool
answers_reverse s d p = is_both p.direction && is_asset_pair_match (asset_pair d s) p

-- `Vec::insert`
abbrev pub insert_at {ℓ} : {A : Type ℓ} → ℕ → A → List A → List A
insert_at zero x ys = x ∷ ys
insert_at (suc i) x [] = x ∷ []
insert_at (suc i) x (y ∷ ys) = y ∷ insert_at i x ys

-- What the standard library's binary search says of the place that it returns, where the comparisons with the
-- elements in order are the given ones: before it none is greater, and from it on none is less.
abbrev pub AllBefore : ℕ → List Ordering → Type 0
AllBefore zero os = All (λ o. o ≢ lt) os
AllBefore (suc i) [] = ⊥
AllBefore (suc i) (o ∷ os) = (o ≢ gt) × AllBefore i os

-- The comparisons of a sorted list: none is less than one before it.
abbrev pub IsPartitioned : List Ordering → Type 0
IsPartitioned [] = Unit
IsPartitioned (lt ∷ os) = IsPartitioned os
IsPartitioned (eq ∷ os) = All (λ o. o ≢ lt) os × IsPartitioned os
IsPartitioned (gt ∷ os) = All (λ o. o ≡ gt) os × IsPartitioned os

pub record BinarySearch : Type 0 where
  pub position : List Ordering → ℕ
  pub position_splits : (os : List Ordering) → IsPartitioned os → AllBefore (position os) os

abbrev pub PolicyMap : Type 0 → Type 0
PolicyMap T = List (AssetPair × T)

module _ {T : Type 0} where
  -- `PolicyMap::insert`
  unfoldable pub insert : BinarySearch → AssetPair → T → PolicyMap T → PolicyMap T
  unfolding are_asset_pairs_equal compare_asset_pair_specificity
  insert search pair value m =
      if any (λ e. are_asset_pairs_equal e.0 pair) m
      then m
      else insert_at (search.position (map (λ e. compare_asset_pair_specificity e.0 pair) m))
          (pair, value) m

  -- `PolicyMap::get`
  unfoldable pub get : AssetId → AssetId → PolicyMap T → Option T
  unfolding is_asset_pair_match
  get s d [] = none
  get s d ((pair, value) ∷ rest) =
      if answers_forward s d pair
      then some value
      else if answers_reverse s d pair
      then some value
      else get s d rest

  unfoldable pub contains_key : AssetId → AssetId → PolicyMap T → Bool
  unfolding get
  contains_key s d m = is_some (get s d m)

  -- `PolicyMap::find_map`
  unfoldable pub find_map :
      {R : Type 0} → AssetId → AssetId → (T → Option R) → PolicyMap T → Option R
  unfolding is_asset_pair_match
  find_map s d f [] = none
  find_map s d f ((pair, value) ∷ rest) =
      or_else (if answers_forward s d pair then f value else none)
        (or_else (if answers_reverse s d pair then f value else none) (find_map s d f rest))

abbrev pub PolicySet : Type 0
PolicySet = PolicyMap (Unit {0})
