-- ===== src/EvmWatcher/BlockRange.antt =====
-- evm-watcher/src/block_range.rs: the block numbers of pending events, grouped into ranges for log queries.
pub mod Sorted
pub mod Covered
pub mod Examples
use uni_pay.Prelude.{List, [], filter, if◌then◌else◌, leb, nat_eq, not, ℕ, ◌-◌, ◌==◌, ◌∷◌}

-- `BlockRange`
pub record BlockRange : Type 0 where
  pub from_block : ℕ
  pub to_block : ℕ

-- `sort_unstable`
unfoldable pub insert : ℕ → List ℕ → List ℕ
insert b [] = b ∷ []
insert b (c ∷ cs) = if leb b c then b ∷ c ∷ cs else c ∷ insert b cs

unfoldable pub sort_unstable : List ℕ → List ℕ
unfolding insert
sort_unstable [] = []
sort_unstable (b ∷ bs) = insert b (sort_unstable bs)

-- `dedup`: of equal neighbours the first stays.
unfoldable pub dedup_after : ℕ → List ℕ → List ℕ
dedup_after b [] = []
dedup_after b (c ∷ cs) = if c == b then dedup_after b cs else c ∷ dedup_after c cs

unfoldable pub dedup : List ℕ → List ℕ
unfolding dedup_after
dedup [] = []
dedup (b ∷ bs) = b ∷ dedup_after b bs

abbrev pub last_of : ℕ → List ℕ → ℕ
last_of b [] = b
last_of b (c ∷ cs) = last_of c cs

abbrev pub range : ℕ → ℕ → BlockRange
range a b = record { from_block = a; to_block = b }

-- The loop, and the range after it.
unfoldable pub ranges_from : ℕ → ℕ → ℕ → ℕ → List ℕ → List BlockRange
ranges_from max_span range_start previous last_block [] =
    if leb range_start last_block then range range_start last_block ∷ [] else []
ranges_from max_span range_start previous last_block (current ∷ rest) =
    if leb max_span (current - range_start)
    then range range_start previous ∷ ranges_from max_span current current last_block rest
    else ranges_from max_span range_start current last_block rest

-- Of the sorted blocks.
unfoldable pub group_sorted : ℕ → List ℕ → List BlockRange
unfolding ranges_from
group_sorted max_span [] = []
group_sorted max_span (first ∷ []) = range first first ∷ []
group_sorted max_span (first ∷ second ∷ rest) =
    ranges_from max_span first first (last_of second rest) (second ∷ rest)

unfoldable pub group_block_ranges : List ℕ → ℕ → List BlockRange
unfolding dedup sort_unstable group_sorted
group_block_ranges blocks max_span =
    group_sorted max_span (dedup (sort_unstable (filter (λ b. not (b == 0)) blocks)))
