-- ===== src/TxBuilder/Plan.antt =====
-- What the fee builder of tx_builder/fee_builder.rs plans for a difference of fees.
use uni_pay.Prelude.{List, min, total, ℕ, ◌+◌, ◌-◌, ◌≡◌, ◌≤◌, ◌⊎◌}
use uni_pay.TxBuilder.Fee.{
  FeeAction, FeeDelta, add_utxos, done, exact, increase_change, overpaid, reduce_change, underpaid,
}

-- The sums of the reductions, of the increases and of the needs of a plan.
abbrev pub reduced : FeeAction → ℕ
reduced (reduce_change n) = n
reduced _ = 0

abbrev pub increased : FeeAction → ℕ
increased (increase_change n) = n
increased _ = 0

abbrev pub asked : FeeAction → ℕ
asked (add_utxos n) = n
asked _ = 0

abbrev pub finishes : FeeAction → ℕ
finishes done = 1
finishes _ = 0

-- What the plan of a fee difference does, for a change and its least value.
abbrev pub IsBalanced : FeeDelta → ℕ → ℕ → List FeeAction → Type 0
IsBalanced exact change min_change plan =
    ((total finishes plan ≡ 1) × (min_change ≤ change) × (total asked plan ≡ 0))
    ⊎ ((total finishes plan ≡ 0) × (change + total asked plan ≡ min_change))
IsBalanced (underpaid short) change min_change plan =
    (total finishes plan ≡ 0)
    × (total increased plan ≡ 0)
    × (total reduced plan ≡ min (change - min_change) short)
    × (total asked plan ≡ short - (change - min_change))
IsBalanced (overpaid surplus) change min_change plan =
    (total finishes plan ≡ 0)
    × (total reduced plan ≡ 0)
    × (total increased plan ≡ surplus)
    × (total asked plan ≡ min_change - (change + surplus))
