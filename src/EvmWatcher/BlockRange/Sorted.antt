-- ===== src/EvmWatcher/BlockRange/Sorted.antt =====
-- Sorting and removing duplicates, of evm-watcher/src/block_range.rs.
use mathlib.Core.Path.{subst}
use uni_pay.EvmWatcher.BlockRange.{dedup, dedup_after, insert, sort_unstable}
use uni_pay.Prelude.{
  Bool-cases, List, [], ap, arith, contains, eq_of_beq, inl, inr, leb, nat_eq, or_absorb_left,
  or_swap, refl, ℕ, ◌<◌, ◌==◌, ◌||◌, ◌∙◌, ◌∷◌, ◌≡◌, ◌≤◌,
}

-- Each block is below the next.
abbrev pub Ascends : ℕ → List ℕ → Type 0
Ascends b [] = Unit
Ascends b (c ∷ cs) = (b < c) × Ascends c cs

abbrev pub Climbs : List ℕ → Type 0
Climbs [] = Unit
Climbs (b ∷ bs) = Ascends b bs

-- The same with equal neighbours allowed.
abbrev Weakly : ℕ → List ℕ → Type 0
Weakly b [] = Unit
Weakly b (c ∷ cs) = (b ≤ c) × Weakly c cs

abbrev IsSorted : List ℕ → Type 0
IsSorted [] = Unit
IsSorted (b ∷ bs) = Weakly b bs

insert-Weakly : (lo b : ℕ) (bs : List ℕ) → lo ≤ b → Weakly lo bs → Weakly lo (insert b bs)
unfolding insert
insert-Weakly lo b [] h w = (h, tt)
insert-Weakly lo b (c ∷ cs) h w = elim (Bool-cases (leb b c)) [
  | inl before ↦ rw before (h, (ground arith, w.1))
  | inr after ↦ rw after (w.0, insert-Weakly c b cs (ground arith) w.1)
]

insert-IsSorted : (b : ℕ) (bs : List ℕ) → IsSorted bs → IsSorted (insert b bs)
unfolding insert
insert-IsSorted b [] w = tt
insert-IsSorted b (c ∷ cs) w = elim (Bool-cases (leb b c)) [
  | inl before ↦ rw before (ground arith, w)
  | inr after ↦ rw after (insert-Weakly c b cs (ground arith) w)
]

sort_unstable-IsSorted : (bs : List ℕ) → IsSorted (sort_unstable bs)
unfolding sort_unstable
sort_unstable-IsSorted [] = tt
sort_unstable-IsSorted (b ∷ bs) = insert-IsSorted b (sort_unstable bs) (sort_unstable-IsSorted bs)

dedup_after-Ascends : (b : ℕ) (bs : List ℕ) → Weakly b bs → Ascends b (dedup_after b bs)
unfolding dedup_after
dedup_after-Ascends b [] w = tt
dedup_after-Ascends b (c ∷ cs) w = elim (Bool-cases (c == b)) [
  | inl same ↦
      let eq : c ≡ b = eq_of_beq c b same in
      rw same (dedup_after-Ascends b cs (subst (λ x. Weakly x cs) eq w.1))
  | inr other ↦ rw other (ground arith, dedup_after-Ascends c cs w.1)
]

pub dedup-Climbs : (bs : List ℕ) → Climbs (dedup (sort_unstable bs))
unfolding dedup
dedup-Climbs bs = climbs (sort_unstable bs) (sort_unstable-IsSorted bs)
  where
    climbs : (cs : List ℕ) → IsSorted cs → Climbs (dedup cs)
    climbs [] w = tt
    climbs (c ∷ cs) w = dedup_after-Ascends c cs w

contains-insert : (k b : ℕ) (bs : List ℕ) → contains (insert b bs) k ≡ (b == k || contains bs k)
unfolding insert
contains-insert k b [] = refl
contains-insert k b (c ∷ cs) = elim (Bool-cases (leb b c)) [
  | inl before ↦ rw before
  | inr after ↦ rw (after, contains-insert k b cs) (or_swap (c == k) (b == k) (contains cs k))
]

contains-sort_unstable : (k : ℕ) (bs : List ℕ) → contains (sort_unstable bs) k ≡ contains bs k
unfolding sort_unstable
contains-sort_unstable k [] = refl
contains-sort_unstable k (b ∷ bs) =
    contains-insert k b (sort_unstable bs) ∙ ap (λ x. b == k || x) (contains-sort_unstable k bs)

contains-dedup_after :
    (k b : ℕ) (bs : List ℕ) → (b == k || contains (dedup_after b bs) k) ≡ (b == k || contains bs k)
unfolding dedup_after
contains-dedup_after k b [] = refl
contains-dedup_after k b (c ∷ cs) = elim (Bool-cases (c == b)) [
  | inl same ↦ rw same (
      contains-dedup_after k b cs
      ∙ or_absorb_left (b == k) (c == k) (contains cs k) (ap (λ x. x == k) (eq_of_beq c b same)))
  | inr other ↦ rw other (ap (λ x. b == k || x) (contains-dedup_after k c cs))
]

pub contains-dedup : (k : ℕ) (bs : List ℕ) → contains (dedup (sort_unstable bs)) k ≡ contains bs k
unfolding dedup
contains-dedup k bs = kept (sort_unstable bs) ∙ contains-sort_unstable k bs
  where
    kept : (cs : List ℕ) → contains (dedup cs) k ≡ contains cs k
    kept [] = refl
    kept (c ∷ cs) = contains-dedup_after k c cs
