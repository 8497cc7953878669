-- ===== src/EvmWatcher/BlockRange/Examples.antt =====
-- Concrete blocks.
use uni_pay.EvmWatcher.BlockRange.{
  dedup, dedup_after, group_block_ranges, group_sorted, insert, range, ranges_from, sort_unstable,
}
use uni_pay.EvmWatcher.BlockRange.Covered.{IsOrdered, covers, group_block_ranges-covers}
use uni_pay.Prelude.{[], any, contains, nat_eq, refl, true, ℕ, ◌∷◌, ◌≡◌, ◌≢◌}

ranges_test :
    group_block_ranges (102 ∷ 100 ∷ 0 ∷ 202 ∷ 200 ∷ 100 ∷ []) 50
    ≡ range 100 102 ∷ range 200 202 ∷ []
unfolding group_block_ranges group_sorted ranges_from dedup dedup_after sort_unstable insert
ranges_test = refl

group_block_ranges-covers_example :
    IsOrdered 50 0 (group_block_ranges (102 ∷ 100 ∷ 202 ∷ []) 50)
    × ((b : ℕ)
        → contains (102 ∷ 100 ∷ 202 ∷ []) b ≡ true
        → b ≢ 0
        → any (covers b) (group_block_ranges (102 ∷ 100 ∷ 202 ∷ []) 50) ≡ true)
group_block_ranges-covers_example = group_block_ranges-covers (102 ∷ 100 ∷ 202 ∷ []) 50
