-- ===== src/TxBuilder/Fee.antt =====
-- tx_builder/fee_builder.rs. A fee that the transaction pays (`i64`) is negative or not; a fee or a change is a
-- `u64`. A target of 2 ^ 63 or more, which `as i64` would make negative, is not reached by amounts of
-- bitcoin; nor does a difference of fees overflow an `i64`.
use uni_pay.Prelude.{
  Bool, List, Option, Result, [], err, false, if◌then◌else◌, is_some, leb, length, ltb, min, none,
  ok, some, suc, zero, ℕ, ◌&&◌, ◌+◌, ◌-◌, ◌>>=◌, ◌^◌, ◌∷◌,
}
use uni_pay.TxBuilder.{TxBuilderError, client, insufficient_funds, max_iterations_exceeded}
use uni_pay.TxBuilder.Cover.{BitcoinCoverUtxoProvider, add, available, select}
use uni_pay.Wallet.Planner.{u64_mod}
use uni_pay.Wallet.Types.{CoverUtxo, OutPoint}

-- `i64`
pub data ℤ : Type 0 where
  pos : ℕ → ℤ
  negsuc : ℕ → ℤ

-- `fee_delta`, by its sign: the surplus, or what is missing.
pub data FeeDelta : Type 0 where
  exact : FeeDelta
  underpaid : ℕ → FeeDelta
  overpaid : ℕ → FeeDelta

abbrev pub delta_of : ℤ → ℕ → FeeDelta
delta_of (pos current) target =
    if ltb current target
    then underpaid (target - current)
    else if ltb target current
    then overpaid (current - target)
    else exact
delta_of (negsuc n) target = underpaid (target + n + 1)

pub data FeeAction : Type 0 where
  done : FeeAction
  reduce_change : ℕ → FeeAction
  add_utxos : ℕ → FeeAction
  increase_change : ℕ → FeeAction

abbrev pub saturating_add : ℕ → ℕ → ℕ
saturating_add a b = min (a + b) (u64_mod - 1)

abbrev pub if_some : Bool → FeeAction → List FeeAction → List FeeAction
if_some test action more = if test then action ∷ more else more

unfoldable pub plan_fee_actions : FeeDelta → ℕ → ℕ → List FeeAction
plan_fee_actions exact change min_change =
    if ltb change min_change then add_utxos (min_change - change) ∷ [] else done ∷ []
plan_fee_actions (underpaid short) change min_change =
    let reduction = min (change - min_change) short in
    if_some (ltb 0 (change - min_change)) (reduce_change reduction) (
      let needed = if ltb 0 (change - min_change) then short - reduction else short in
      if_some (ltb 0 needed) (add_utxos needed) [])
plan_fee_actions (overpaid increase) change min_change =
    let projected = saturating_add change increase in
    increase_change increase
    ∷ if_some (ltb projected min_change) (add_utxos (min_change - projected)) []

pub record FeeBuilderResult (Tx : Type 0) : Type 0 where
  pub tx : Tx
  pub change : ℕ
  pub fee_paid_sats : ℕ

-- `UtxoChainTxAdaptor` and its codec and estimator, for one set of parameters; and the inputs of a
-- transaction.
pub record TxAdaptor (Tx : Type 0) : Type 0 where
  pub build : List CoverUtxo → ℕ → Result TxBuilderError Tx
  pub current : BitcoinCoverUtxoProvider → Tx → Result TxBuilderError ℤ
  pub target : Tx → Result TxBuilderError ℕ
  pub encode : Tx → Result TxBuilderError (List ℕ)
  pub decode : List ℕ → Result TxBuilderError Tx
  pub inputs : Tx → List OutPoint

-- `u64::try_from(current_fee)`
abbrev pub to_u64 : ℤ → Result TxBuilderError ℕ
to_u64 (pos n) = ok n
to_u64 (negsuc n) = err client

-- `best_overpay`, with its delta.
pub record Overpay : Type 0 where
  pub data_bytes : List ℕ
  pub change : ℕ
  pub fee : ℕ
  pub delta : ℕ

-- The variables of the loop.
pub record FeeState : Type 0 where
  pub cover : BitcoinCoverUtxoProvider
  pub change : ℕ
  pub last_size : Option ℕ
  pub best_overpay : Option Overpay

-- What the actions of a round end with.
pub data Round (Tx : Type 0) : Type 0 where
  again : FeeState → Round Tx
  finished : Result TxBuilderError (FeeBuilderResult Tx) → Round Tx

-- Grown by one or two bytes since the last round.
abbrev pub is_stable : Option ℕ → ℕ → Bool
is_stable none size = false
is_stable (some previous) size = ltb previous size && leb (size - previous) 2

abbrev pub beats : ℕ → Option Overpay → Bool
beats delta none = ltb delta (2 ^ 63 - 1)
beats delta (some best) = ltb delta best.delta

module _ {Tx : Type 0} (a : TxAdaptor Tx) where
  unfoldable pub fallback_best : Option Overpay → Result TxBuilderError (FeeBuilderResult Tx)
  fallback_best none = err max_iterations_exceeded
  fallback_best (some best) = do
    tx ← a.decode best.data_bytes
    ok (record { tx = tx; change = best.change; fee_paid_sats = best.fee })

  abbrev pub converged : Tx → ℕ → ℤ → Result TxBuilderError (FeeBuilderResult Tx)
  converged tx change current = do
    fee ← to_u64 current
    ok (record { tx = tx; change = change; fee_paid_sats = fee })

  -- The selection's answer, with the fallbacks.
  abbrev pub add_selected : ℕ → FeeState → Result TxBuilderError (List CoverUtxo) → Round Tx
  add_selected needed s (err (insufficient_funds n m)) =
      if is_some s.best_overpay
      then finished (fallback_best s.best_overpay)
      else finished (err (insufficient_funds n m))
  add_selected needed s (err e) = finished (err e)
  add_selected needed s (ok []) =
      if is_some s.best_overpay
      then finished (fallback_best s.best_overpay)
      else finished (err (insufficient_funds needed 0))
  add_selected needed s (ok (u ∷ us)) = again (record s { cover = add (u ∷ us) s.cover })

  abbrev pub add_cover : Tx → ℕ → FeeState → Result TxBuilderError (List CoverUtxo) → Round Tx
  add_cover tx needed s (err e) = finished (err e)
  add_cover tx needed s (ok candidates) = add_selected needed s (select candidates needed)

  abbrev pub apply : Tx → ℤ → FeeAction → FeeState → Round Tx
  apply tx current done s = finished (converged tx s.change current)
  apply tx current (reduce_change amount) s = again (record s { change = s.change - amount })
  apply tx current (add_utxos needed) s = add_cover tx needed s (available s.cover (a.inputs tx))
  apply tx current (increase_change amount) s =
      again (record s { change = saturating_add s.change amount })

  abbrev pub and_then : (FeeState → Round Tx) → Round Tx → Round Tx
  and_then k (finished r) = finished r
  and_then k (again s) = k s

  unfoldable pub apply_all : Tx → ℤ → List FeeAction → FeeState → Round Tx
  unfolding fallback_best
  apply_all tx current [] s = again s
  apply_all tx current (x ∷ xs) s = and_then (apply_all tx current xs) (apply tx current x s)

  abbrev pub record_overpay : List ℕ → ℤ → FeeDelta → FeeState → Result TxBuilderError FeeState
  record_overpay encoded current (overpaid delta) s =
      if beats delta s.best_overpay
      then (do
        fee ← to_u64 current
        ok (record s {
          best_overpay =
              some (record { data_bytes = encoded; change = s.change; fee = fee; delta = delta });
        }))
      else ok s
  record_overpay encoded current exact s = ok s
  record_overpay encoded current (underpaid short) s = ok s

  -- A round that has not ended by stability.
  abbrev pub adjust : ℕ → Tx → ℤ → FeeDelta → Result TxBuilderError FeeState → Round Tx
  adjust min_change tx current delta (err e) = finished (err e)
  adjust min_change tx current delta (ok s) =
      apply_all tx current (plan_fee_actions delta s.change min_change) s

  abbrev pub measured : ℕ → FeeState → Tx → ℤ → ℕ → List ℕ → Round Tx
  measured min_change s tx current target encoded =
      if is_stable s.last_size (length encoded)
      then finished (converged tx s.change current)
      else adjust min_change tx current (delta_of current target) (
          record_overpay encoded current (delta_of current target)
            (record s { last_size = some (length encoded) }))

  abbrev pub or_fail : {A : Type 0} → Result TxBuilderError A → (A → Round Tx) → Round Tx
  or_fail (err e) k = finished (err e)
  or_fail (ok x) k = k x

  unfoldable pub fee_round : ℕ → FeeState → Round Tx
  unfolding apply_all plan_fee_actions
  fee_round min_change s = or_fail (a.build s.cover.selected s.change) λ tx.
      or_fail (a.current s.cover tx) λ current.
        or_fail (a.target tx)
          λ target. or_fail (a.encode tx) λ encoded. measured min_change s tx current target encoded

  -- `rounds` is `MAX_ITERATIONS`, 16, at the start.
  unfoldable pub fee_rounds : ℕ → ℕ → FeeState → Result TxBuilderError (FeeBuilderResult Tx)
  unfolding fee_round fallback_best
  fee_rounds zero min_change s = fallback_best s.best_overpay
  fee_rounds (suc rounds) min_change s = elim (fee_round min_change s) [
    | finished r ↦ r
    | again s' ↦ fee_rounds rounds min_change s'
  ]

  unfoldable pub build_with_fee_floor :
      BitcoinCoverUtxoProvider → ℕ → ℕ → Result TxBuilderError (FeeBuilderResult Tx)
  unfolding fee_rounds
  build_with_fee_floor cover initial_change min_change =
      fee_rounds 16 min_change
        (record { cover = cover; change = initial_change; last_size = none; best_overpay = none })

  unfoldable pub build_with_fee :
      BitcoinCoverUtxoProvider → Result TxBuilderError (FeeBuilderResult Tx)
  unfolding build_with_fee_floor
  build_with_fee cover = build_with_fee_floor cover 0 0
