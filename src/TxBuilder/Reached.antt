-- ===== src/TxBuilder/Reached.antt =====
-- What the rounds of tx_builder/fee_builder.rs reach, and which transactions they may return.
use uni_pay.Prelude.{
  List, Option, Result, [], arith, err, false, inr, is_empty, nat_eq, none, ok, refl, some, ℕ, ◌+◌,
  ◌-◌, ◌<◌, ◌>>=◌, ◌∷◌, ◌≡◌, ◌⊎◌,
}
use uni_pay.TxBuilder.{TxBuilderError}
use uni_pay.TxBuilder.Cover.{BitcoinCoverUtxoProvider, add, available, select}
use uni_pay.TxBuilder.Fee.{
  FeeAction, FeeBuilderResult, Overpay, Round, TxAdaptor, add_utxos, again, delta_of, done,
  fallback_best, finished, increase_change, plan_fee_actions, pos, reduce_change, saturating_add, ℤ,
}
use uni_pay.Wallet.Types.{CoverUtxo}

module _ {Tx : Type 0} (a : TxAdaptor Tx) (min_change : ℕ) (start : BitcoinCoverUtxoProvider)
    (initial : ℕ) where
  -- What the actions of a plan do with the inputs and the change, one after the other.
  abbrev pub Performs :
      Tx → List FeeAction → BitcoinCoverUtxoProvider → ℕ → BitcoinCoverUtxoProvider → ℕ → Type 0
  Performs tx [] cover change cover' change' = (cover ≡ cover') × (change ≡ change')
  Performs tx (done ∷ xs) cover change cover' change' = ⊥
  Performs tx (reduce_change n ∷ xs) cover change cover' change' =
      Performs tx xs cover (change - n) cover' change'
  Performs tx (increase_change n ∷ xs) cover change cover' change' =
      Performs tx xs cover (saturating_add change n) cover' change'
  Performs tx (add_utxos n ∷ xs) cover change cover' change' =
      (candidates chosen : List CoverUtxo) × (available cover (a.inputs tx) ≡ ok candidates)
      × (select candidates n ≡ ok chosen)
      × (is_empty chosen ≡ false)
      × Performs tx xs (add chosen cover) change cover' change'

  -- The inputs and the change that the rounds reach from the given ones: a round builds a transaction, measures its
  -- fee, and performs the plan for the difference to its target.
  pub data Reaches : BitcoinCoverUtxoProvider → ℕ → Type 0 where
    begins : Reaches start initial
    goes_on :
        (cover cover' : BitcoinCoverUtxoProvider) (change change' : ℕ) (tx : Tx) (current : ℤ)
        (target : ℕ)
        → Reaches cover change
        → a.build cover.selected change ≡ ok tx
        → a.current cover tx ≡ ok current
        → a.target tx ≡ ok target
        → Performs tx
            (plan_fee_actions (delta_of current target) change min_change)
            cover
            change
            cover'
            change'
        → Reaches cover' change'

  -- A transaction that the adaptor built from inputs and a change that are reached, and the fee that it pays.
  abbrev pub Builds : Tx → ℕ → ℕ → Type 0
  Builds tx change fee =
      (cover : BitcoinCoverUtxoProvider) × Reaches cover change
      × (a.build cover.selected change ≡ ok tx)
      × (a.current cover tx ≡ ok (pos fee))

  -- The best candidate so far: the bytes of such a transaction, which pays more than its target.
  abbrev pub IsOverpay : Option Overpay → Type 0
  IsOverpay none = Unit
  IsOverpay (some best) =
      (tx : Tx) × (target : ℕ) × Builds tx best.change best.fee
      × (a.encode tx ≡ ok best.data_bytes)
      × (a.target tx ≡ ok target)
      × (best.fee ≡ target + best.delta)
      × (0 < best.delta)

  -- A result that is right: the transaction itself, or what its bytes decode to.
  abbrev pub IsBuilt : Result TxBuilderError (FeeBuilderResult Tx) → Type 0
  IsBuilt (err e) = Unit
  IsBuilt (ok r) =
      Builds r.tx r.change r.fee_paid_sats
      ⊎ ((tx : Tx) × (bytes : List ℕ) × (target : ℕ) × Builds tx r.change r.fee_paid_sats
          × (a.encode tx ≡ ok bytes)
          × (a.decode bytes ≡ ok r.tx)
          × (a.target tx ≡ ok target)
          × (target < r.fee_paid_sats))

  abbrev pub IsRound : Round Tx → Type 0
  IsRound (again s) = IsOverpay s.best_overpay × Reaches s.cover s.change
  IsRound (finished r) = IsBuilt r

  -- What the actions of a plan end with, from inputs and a change.
  abbrev pub IsStep : Tx → List FeeAction → BitcoinCoverUtxoProvider → ℕ → Round Tx → Type 0
  IsStep tx xs cover change (again s) =
      IsOverpay s.best_overpay × Performs tx xs cover change s.cover s.change
  IsStep tx xs cover change (finished r) = IsBuilt r

  pub fallback_best-IsBuilt :
      (best : Option Overpay) → IsOverpay best → IsBuilt (fallback_best a best)
  unfolding fallback_best
  fallback_best-IsBuilt none h = tt
  fallback_best-IsBuilt (some best) (tx, target, built, bytes, t, fee, more) =
      decoded (a.decode best.data_bytes) refl
    where
      decoded :
          (d : Result TxBuilderError Tx)
          → a.decode best.data_bytes ≡ d
          → IsBuilt
              (d >>= λ x. ok (record { tx = x; change = best.change; fee_paid_sats = best.fee }))
      decoded (err e) at = tt
      decoded (ok x) at =
          inr (tx, best.data_bytes, target, built, bytes, at, t, omega (arith, fee, more))
