-- ===== src/Policy/Collections/Sorted.antt =====
-- `PolicyMap` of policy/src/collections.rs keeps its pairs sorted and different.
use Prim.Native.Nat.{Ordering, compare}
use Prim.Native.Nat.Ordering.{lt, eq, gt}
use uni_pay.Policy.Assets.{AssetPair, PairDirection, asset_id_to_string, both, forward}
use uni_pay.Policy.Collections.{
  AllBefore, BinarySearch, IsPartitioned, PolicyMap, are_asset_pairs_equal,
  calculate_asset_specificity, compare_asset_pair_specificity, direction_beq, insert, insert_at,
}
use uni_pay.Prelude.{
  All, Bool, Bool-cases, IsOrder, List, [], any, ap, beq_comm, beq_refl, chained, compare-IsOrder,
  compare_list, compare_list-IsOrder, false, flip, flip-IsOrder, inl, inr, key-IsOrder, list_eq,
  map, nat_eq, option_eq, or-eq_false, or_left, or_right, or_swap, refl, string_eq, suc, sym,
  then_with, then_with-IsOrder, true, zero, ℕ, ◌&&◌, ◌||◌, ◌∙◌, ◌∷◌, ◌≡◌, ◌≢◌, ◌⊎◌,
}
use uni_pay.Store.Rows.{status_eq}
use uni_pay.Wallet.Types.{anchor_eq, outpoint_eq}

compare_asset_pair_specificity-IsOrder : IsOrder compare_asset_pair_specificity
unfolding compare_asset_pair_specificity
compare_asset_pair_specificity-IsOrder =
    let by_number : IsOrder
        (λ a b. flip (compare (calculate_asset_specificity a) (calculate_asset_specificity b))) =
      key-IsOrder calculate_asset_specificity (flip-IsOrder compare-IsOrder) in
    let by_name : IsOrder (λ a b. compare_list (asset_id_to_string a) (asset_id_to_string b)) =
      key-IsOrder asset_id_to_string compare_list-IsOrder in
    then_with-IsOrder (key-IsOrder (λ (p : AssetPair). p.source) by_number) (
      then_with-IsOrder (key-IsOrder (λ (p : AssetPair). p.destination) by_number) (
        then_with-IsOrder (key-IsOrder (λ (p : AssetPair). p.source) by_name)
          (key-IsOrder (λ (p : AssetPair). p.destination) by_name)))

-- No pair stands behind a less specific one.
abbrev pub IsSorted : {T : Type 0} → PolicyMap T → Type 0
IsSorted [] = Unit
IsSorted (e ∷ m) = All (λ x. compare_asset_pair_specificity e.0 x.0 ≢ gt) m × IsSorted m

-- No pair stands twice.
abbrev pub IsDistinct : {T : Type 0} → PolicyMap T → Type 0
IsDistinct [] = Unit
IsDistinct (e ∷ m) = (any (λ x. are_asset_pairs_equal x.0 e.0) m ≡ false) × IsDistinct m

pub lt≢gt : lt ≢ gt
lt≢gt h = cc

then_lt : (o : Ordering) → then_with o lt ≢ eq
then_lt lt h = cc
then_lt eq h = cc
then_lt gt h = cc

gt_or_not : (o : Ordering) → (o ≡ gt) ⊎ (o ≢ gt)
gt_or_not lt = inr lt≢gt
gt_or_not eq = inr (λ h. cc)
gt_or_not gt = inl refl

module _ {T : Type 0} (p : AssetPair) where
  comparisons : PolicyMap T → List Ordering
  comparisons m = map (λ e. compare_asset_pair_specificity e.0 p) m

  after_eq :
      (q : AssetPair) (m : PolicyMap T)
      → compare_asset_pair_specificity q p ≡ eq
      → All (λ x. compare_asset_pair_specificity q x.0 ≢ gt) m
      → All (λ o. o ≢ lt) (comparisons m)
  unfolding comparisons
  after_eq q [] e h = tt
  after_eq q (x ∷ m) e h = (
    λ l.
        let whole =
          chained compare_asset_pair_specificity-IsOrder q x.0 p h.0 (λ g. lt≢gt (sym l ∙ g)) in
        let first = compare_asset_pair_specificity q x.0 in
        then_lt first (sym (ap (then_with first) l) ∙ sym whole ∙ e),
    after_eq q m e h.1,
  )

  after_gt :
      (q : AssetPair) (m : PolicyMap T)
      → compare_asset_pair_specificity q p ≡ gt
      → All (λ x. compare_asset_pair_specificity q x.0 ≢ gt) m
      → All (λ o. o ≡ gt) (comparisons m)
  unfolding comparisons
  after_gt q [] e h = tt
  after_gt q (x ∷ m) e h = (
    elim (gt_or_not (compare_asset_pair_specificity x.0 p)) [
      | inl above ↦ above
      | inr other ↦ absurd (compare_asset_pair_specificity-IsOrder.trans q x.0 p h.0 other e)
    ],
    after_gt q m e h.1,
  )

  comparisons-IsPartitioned : (m : PolicyMap T) → IsSorted m → IsPartitioned (comparisons m)
  unfolding comparisons
  comparisons-IsPartitioned [] h = tt
  comparisons-IsPartitioned (e ∷ m) h =
      placed (compare_asset_pair_specificity e.0 p) refl (comparisons-IsPartitioned m h.1)
    where
      placed :
          (o : Ordering)
          → compare_asset_pair_specificity e.0 p ≡ o
          → IsPartitioned (comparisons m)
          → IsPartitioned (o ∷ comparisons m)
      placed lt q k = k
      placed eq q k = (after_eq e.0 m q h.0, k)
      placed gt q k = (after_gt e.0 m q h.0, k)

  All-insert_at :
      (P : AssetPair × T → Type 0) (i : ℕ) (x : AssetPair × T) (m : PolicyMap T)
      → P x
      → All P m
      → All P (insert_at i x m)
  All-insert_at P zero x m h k = (h, k)
  All-insert_at P (suc i) x [] h k = (h, tt)
  All-insert_at P (suc i) x (y ∷ m) h k = (k.0, All-insert_at P i x m h k.1)

  below :
      (m : PolicyMap T)
      → All (λ o. o ≢ lt) (comparisons m)
      → All (λ x. compare_asset_pair_specificity p x.0 ≢ gt) m
  unfolding comparisons
  below [] h = tt
  below (x ∷ m) h =
      (λ g. h.0 (compare_asset_pair_specificity-IsOrder.flips p x.0 ∙ ap flip g), below m h.1)

  insert_at-IsSorted :
      (i : ℕ) (v : T) (m : PolicyMap T)
      → AllBefore i (comparisons m)
      → IsSorted m
      → IsSorted (insert_at i (p, v) m)
  unfolding comparisons
  insert_at-IsSorted zero v m b h = (below m b, h)
  insert_at-IsSorted (suc i) v [] b h = absurd b
  insert_at-IsSorted (suc i) v (e ∷ m) b h = (
    All-insert_at (λ x. compare_asset_pair_specificity e.0 x.0 ≢ gt) i (p, v) m b.0 h.0,
    insert_at-IsSorted i v m b.1 h.1,
  )

direction_beq_comm : (a b : PairDirection) → direction_beq a b ≡ direction_beq b a
direction_beq_comm forward forward = refl
direction_beq_comm forward both = refl
direction_beq_comm both forward = refl
direction_beq_comm both both = refl

pub are_asset_pairs_equal_refl : (p : AssetPair) → are_asset_pairs_equal p p ≡ true
unfolding are_asset_pairs_equal
are_asset_pairs_equal_refl p =
    rw
      (
        beq_refl p.source.chain,
        beq_refl p.source.token,
        beq_refl p.destination.chain,
        beq_refl p.destination.token,
      )
      (direction_beq_refl p.direction)
  where
    direction_beq_refl : (d : PairDirection) → (direction_beq d d && true) ≡ true
    direction_beq_refl forward = refl
    direction_beq_refl both = refl

pub are_asset_pairs_equal_comm :
    (a b : AssetPair) → are_asset_pairs_equal a b ≡ are_asset_pairs_equal b a
unfolding are_asset_pairs_equal
are_asset_pairs_equal_comm a b = rw (
  beq_comm a.source.chain b.source.chain,
  beq_comm a.source.token b.source.token,
  direction_beq_comm a.direction b.direction,
  beq_comm a.destination.chain b.destination.chain,
  beq_comm a.destination.token b.destination.token,
)

pub any-insert_at :
    {A : Type 0} (f : A → Bool) (i : ℕ) (x : A) (m : List A)
    → any f (insert_at i x m) ≡ (f x || any f m)
any-insert_at f zero x m = refl
any-insert_at f (suc i) x [] = refl
any-insert_at f (suc i) x (y ∷ m) =
    ap (λ b. f y || b) (any-insert_at f i x m) ∙ or_swap (f y) (f x) (any f m)

insert_at-IsDistinct :
    {T : Type 0} (i : ℕ) (p : AssetPair) (v : T) (m : PolicyMap T)
    → any (λ x. are_asset_pairs_equal x.0 p) m ≡ false
    → IsDistinct m
    → IsDistinct (insert_at i (p, v) m)
insert_at-IsDistinct zero p v m n h = (n, h)
insert_at-IsDistinct (suc i) p v [] n h = (refl, tt)
insert_at-IsDistinct (suc i) p v (e ∷ m) n h = (
  any-insert_at (λ x. are_asset_pairs_equal x.0 e.0) i (p, v) m
      ∙ or-eq_false (are_asset_pairs_equal p e.0) _
          (are_asset_pairs_equal_comm p e.0 ∙ or_left (are_asset_pairs_equal e.0 p) _ n) h.0,
  insert_at-IsDistinct i p v m (or_right (are_asset_pairs_equal e.0 p) _ n) h.1,
)

-- With a binary search that does what is said of it, an insertion keeps a table sorted by specificity and free of
-- equal pairs.
pub insert-IsSorted :
    {T : Type 0} (search : BinarySearch) (p : AssetPair) (v : T) (m : PolicyMap T)
    → IsSorted m
    → IsDistinct m
    → IsSorted (insert search p v m) × IsDistinct (insert search p v m)
unfolding insert
insert-IsSorted search p v m h d = elim (Bool-cases (any (λ e. are_asset_pairs_equal e.0 p) m)) [
  | inl known ↦ rw known (h, d)
  | inr fresh_pair ↦
      let at = search.position (map (λ e. compare_asset_pair_specificity e.0 p) m) in
      rw fresh_pair (
        insert_at-IsSorted p at v m
            (unfold comparisons in search.position_splits _ (comparisons-IsPartitioned p m h)) h,
        insert_at-IsDistinct at p v m fresh_pair d,
      )
]
