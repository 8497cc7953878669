-- ===== src/TxBuilder/Built.antt =====
-- The loop of tx_builder/fee_builder.rs returns transactions that were built and measured.
use mathlib.Core.Path.{subst}
use uni_pay.Prelude.{
  Bool, Bool-cases, List, Option, Result, [], ap, arith, err, false, if◌then◌else◌, inl, inr,
  is_empty, is_some, length, ltb, min, none, ok, refl, some, suc, sym, total, true, zero, ℕ, ◌-◌,
  ◌∙◌, ◌∷◌, ◌≡◌, ◌⊎◌,
}
use uni_pay.Store.Examples.{moving}
use uni_pay.TxBuilder.{
  TxBuilderError, client, consensus, insufficient_funds, max_iterations_exceeded, validation,
}
use uni_pay.TxBuilder.Cover.{BitcoinCoverUtxoProvider, add, available, select}
use uni_pay.TxBuilder.Fee.{
  FeeAction, FeeDelta, FeeState, Overpay, Round, TxAdaptor, add_cover, add_selected, add_utxos,
  adjust, again, and_then, apply_all, build_with_fee_floor, converged, delta_of, done, exact,
  fallback_best, fee_round, fee_rounds, finished, if_some, increase_change, is_stable, measured,
  negsuc, or_fail, overpaid, plan_fee_actions, pos, reduce_change, saturating_add, underpaid, ℤ,
}
use uni_pay.TxBuilder.Overpay.{IsKept, record_overpay-IsKept}
use uni_pay.TxBuilder.Plan.{finishes}
use uni_pay.TxBuilder.Reached.{
  IsBuilt, IsOverpay, IsRound, IsStep, Reaches, begins, fallback_best-IsBuilt, goes_on,
}
use uni_pay.Wallet.Types.{CoverUtxo}

module _ {Tx : Type 0} (a : TxAdaptor Tx) (min_change : ℕ) (start : BitcoinCoverUtxoProvider)
    (initial : ℕ) where
  abbrev IsBest : Option Overpay → Type 0
  IsBest best = IsOverpay a min_change start initial best

  abbrev IsEnd : Round Tx → Type 0
  IsEnd r = IsRound a min_change start initial r

  abbrev IsPart : Tx → List FeeAction → BitcoinCoverUtxoProvider → ℕ → Round Tx → Type 0
  IsPart tx xs cover change r = IsStep a min_change start initial tx xs cover change r

  fallback-IsPart :
      (tx : Tx) (xs ys : List FeeAction) (current : ℤ) (cover : BitcoinCoverUtxoProvider)
      (change : ℕ) (best : Option Overpay) (e : TxBuilderError)
      → IsBest best
      → IsPart tx xs cover change (
          and_then a
            (apply_all a tx current ys)
            (if is_some best then finished (fallback_best a best) else finished (err e)))
  fallback-IsPart tx xs ys current cover change best e h = elim (Bool-cases (is_some best)) [
    | inl found ↦ rw found (fallback_best-IsBuilt a min_change start initial best h)
    | inr nothing_found ↦ rw nothing_found tt
  ]

  -- An action that adds inputs, with the actions after it.
  added-IsPart :
      (tx : Tx) (n : ℕ) (xs : List FeeAction) (cover : BitcoinCoverUtxoProvider) (change : ℕ)
      (candidates chosen : List CoverUtxo) (r : Round Tx)
      → available cover (a.inputs tx) ≡ ok candidates
      → select candidates n ≡ ok chosen
      → is_empty chosen ≡ false
      → IsPart tx xs (add chosen cover) change r
      → IsPart tx (add_utxos n ∷ xs) cover change r
  added-IsPart tx n xs cover change candidates chosen (finished r) at picked some_chosen h = h
  added-IsPart tx n xs cover change candidates chosen (again s) at picked some_chosen h =
      (h.0, (candidates, chosen, at, picked, some_chosen, h.1))

  apply_all-IsPart :
      (tx : Tx) (current : ℤ) (xs : List FeeAction) (s : FeeState)
      → total finishes xs ≡ 0
      → IsBest s.best_overpay
      → IsPart tx xs s.cover s.change (apply_all a tx current xs s)
  unfolding apply_all
  apply_all-IsPart tx current [] s n h = (h, (refl, refl))
  apply_all-IsPart tx current (done ∷ xs) s n h = absurd (ground arith)
  apply_all-IsPart tx current (reduce_change amount ∷ xs) s n h =
      apply_all-IsPart tx current xs (record s { change = s.change - amount }) (omega (arith, n)) h
  apply_all-IsPart tx current (increase_change amount ∷ xs) s n h =
      apply_all-IsPart tx current xs (record s { change = saturating_add s.change amount })
        (omega (arith, n)) h
  apply_all-IsPart tx current (add_utxos needed ∷ xs) s n h =
      covered (available s.cover (a.inputs tx)) refl
        (λ p. apply_all-IsPart tx current xs (record s { cover = p }) (omega (arith, n)) h)
    where
      picked :
          (candidates : List CoverUtxo)
          → available s.cover (a.inputs tx) ≡ ok candidates
          → (q : Result TxBuilderError (List CoverUtxo)) → select candidates needed ≡ q
          → ((p : BitcoinCoverUtxoProvider)
              → IsPart tx xs p s.change (apply_all a tx current xs (record s { cover = p })))
          → IsPart tx
              (add_utxos needed ∷ xs)
              s.cover
              s.change
              (and_then a (apply_all a tx current xs) (add_selected a needed s q))
      picked candidates at (err (insufficient_funds i j)) e f =
          fallback-IsPart tx (add_utxos needed ∷ xs) xs current s.cover s.change s.best_overpay
            (insufficient_funds i j) h
      picked candidates at (err validation) e f = tt
      picked candidates at (err client) e f = tt
      picked candidates at (err consensus) e f = tt
      picked candidates at (err max_iterations_exceeded) e f = tt
      picked candidates at (ok []) e f =
          fallback-IsPart tx (add_utxos needed ∷ xs) xs current s.cover s.change s.best_overpay
            (insufficient_funds needed 0) h
      picked candidates at (ok (u ∷ us)) e f =
          added-IsPart tx needed xs s.cover s.change candidates (u ∷ us) _ at e refl
            (f (add (u ∷ us) s.cover))

      covered :
          (r : Result TxBuilderError (List CoverUtxo))
          → available s.cover (a.inputs tx) ≡ r
          → ((p : BitcoinCoverUtxoProvider)
              → IsPart tx xs p s.change (apply_all a tx current xs (record s { cover = p })))
          → IsPart tx
              (add_utxos needed ∷ xs)
              s.cover
              s.change
              (and_then a (apply_all a tx current xs) (add_cover a tx needed s r))
      covered (err e) at f = tt
      covered (ok candidates) at f = picked candidates at (select candidates needed) refl f

  converged-IsBuilt :
      (tx : Tx) (change : ℕ) (current : ℤ) (cover : BitcoinCoverUtxoProvider)
      → Reaches a min_change start initial cover change
      → a.build cover.selected change ≡ ok tx
      → a.current cover tx ≡ ok current
      → IsBuilt a min_change start initial (converged a tx change current)
  converged-IsBuilt tx change (pos fee) cover g b c = inl (cover, g, b, c)
  converged-IsBuilt tx change (negsuc n) cover g b c = tt

  if_some-finishes :
      (b : Bool) (x : FeeAction) (xs : List FeeAction)
      → finishes x ≡ 0
      → total finishes xs ≡ 0
      → total finishes (if_some b x xs) ≡ 0
  if_some-finishes true x xs n h = omega (arith, n, h)
  if_some-finishes false x xs n h = h

  -- The plan of a round either ends it with the transaction as it is, or does not end it.
  plan_finishes :
      (delta : FeeDelta) (change : ℕ)
      → ((delta ≡ exact) × (plan_fee_actions delta change min_change ≡ done ∷ []))
        ⊎ (total finishes (plan_fee_actions delta change min_change) ≡ 0)
  unfolding plan_fee_actions
  plan_finishes exact change = elim (Bool-cases (ltb change min_change)) [
    | inl low ↦ rw low (inr refl)
    | inr fine ↦ rw fine (inl (refl, refl))
  ]
  plan_finishes (underpaid short) change =
      let reducible = change - min_change in
      let needed = if ltb 0 reducible then short - min reducible short else short in
      inr (
        if_some-finishes (ltb 0 reducible) (reduce_change (min reducible short))
          (if_some (ltb 0 needed) (add_utxos needed) []) refl
          (if_some-finishes (ltb 0 needed) (add_utxos needed) [] refl refl))
  plan_finishes (overpaid surplus) change =
      let projected = saturating_add change surplus in
      inr (
        omega (
          arith,
          if_some-finishes (ltb projected min_change) (add_utxos (min_change - projected)) [] refl
              refl,
        ))

  step-IsEnd :
      (tx : Tx) (current : ℤ) (target : ℕ) (cover : BitcoinCoverUtxoProvider) (change : ℕ)
      (r : Round Tx)
      → Reaches a min_change start initial cover change
      → a.build cover.selected change ≡ ok tx
      → a.current cover tx ≡ ok current
      → a.target tx ≡ ok target
      → IsPart tx (plan_fee_actions (delta_of current target) change min_change) cover change r
      → IsEnd r
  step-IsEnd tx current target cover change (finished r) g b c t h = h
  step-IsEnd tx current target cover change (again s) g b c t h =
      (h.0, goes_on cover s.cover change s.change tx current target g b c t h.1)

  planned-IsEnd :
      (tx : Tx) (current : ℤ) (target : ℕ) (s : FeeState)
      → Reaches a min_change start initial s.cover s.change
      → a.build s.cover.selected s.change ≡ ok tx
      → a.current s.cover tx ≡ ok current
      → a.target tx ≡ ok target
      → IsBest s.best_overpay
      → IsEnd (
          apply_all a tx current (plan_fee_actions (delta_of current target) s.change min_change) s)
  planned-IsEnd tx current target s g b c t h =
      elim (plan_finishes (delta_of current target) s.change) [
        | inl (_, ends) ↦
            rw ends (unfold apply_all in converged-IsBuilt tx s.change current s.cover g b c)
        | inr unended ↦
            step-IsEnd tx current target s.cover s.change _ g b c t
              (apply_all-IsPart tx current _ s unended h)
      ]

  adjust-IsEnd :
      (tx : Tx) (current : ℤ) (target : ℕ) (s : FeeState) (r : Result TxBuilderError FeeState)
      → Reaches a min_change start initial s.cover s.change
      → a.build s.cover.selected s.change ≡ ok tx
      → a.current s.cover tx ≡ ok current
      → a.target tx ≡ ok target
      → IsKept a min_change start initial s r
      → IsEnd (adjust a min_change tx current (delta_of current target) r)
  adjust-IsEnd tx current target s (err e) g b c t h = tt
  adjust-IsEnd tx current target s (ok s') g b c t (best, cover, change) =
      planned-IsEnd tx current target s'
        (subst (λ p. Reaches a min_change start initial p s'.change) (sym cover)
          (subst (λ n. Reaches a min_change start initial s.cover n) (sym change) g))
        (ap (λ p. a.build p.selected s'.change) cover ∙ ap (a.build s.cover.selected) change ∙ b)
        (ap (λ p. a.current p tx) cover ∙ c) t best

  measured-IsEnd :
      (s : FeeState) (tx : Tx) (current : ℤ) (target : ℕ) (encoded : List ℕ)
      → Reaches a min_change start initial s.cover s.change
      → a.build s.cover.selected s.change ≡ ok tx
      → a.current s.cover tx ≡ ok current
      → a.target tx ≡ ok target
      → a.encode tx ≡ ok encoded
      → IsBest s.best_overpay
      → IsEnd (measured a min_change s tx current target encoded)
  measured-IsEnd s tx current target encoded g b c t n h =
      elim (Bool-cases (is_stable s.last_size (length encoded))) [
        | inl stable ↦ rw stable (converged-IsBuilt tx s.change current s.cover g b c)
        | inr moving ↦
            let sized = record s { last_size = some (length encoded) } in
            rw moving (
              adjust-IsEnd tx current target sized _ g b c t (
                record_overpay-IsKept a min_change start initial tx encoded current target
                  (delta_of current target) sized g b c t n refl h))
      ]

  or_fail-IsEnd :
      {A : Type 0} (r : Result TxBuilderError A) (k : A → Round Tx)
      → ((x : A) → r ≡ ok x → IsEnd (k x))
      → IsEnd (or_fail a r k)
  or_fail-IsEnd (err e) k f = tt
  or_fail-IsEnd (ok x) k f = f x refl

  fee_round-IsEnd :
      (s : FeeState)
      → IsBest s.best_overpay
      → Reaches a min_change start initial s.cover s.change
      → IsEnd (fee_round a min_change s)
  unfolding fee_round
  fee_round-IsEnd s h g = or_fail-IsEnd (a.build s.cover.selected s.change) _ λ tx b.
      or_fail-IsEnd (a.current s.cover tx) _ λ current c. or_fail-IsEnd (a.target tx) _ λ target t.
        or_fail-IsEnd (a.encode tx) _
          λ encoded n. measured-IsEnd s tx current target encoded g b c t n h

  fee_rounds-IsBuilt :
      (rounds : ℕ) (s : FeeState)
      → IsBest s.best_overpay
      → Reaches a min_change start initial s.cover s.change
      → IsBuilt a min_change start initial (fee_rounds a rounds min_change s)
  unfolding fee_rounds
  fee_rounds-IsBuilt zero s h g = fallback_best-IsBuilt a min_change start initial s.best_overpay h
  fee_rounds-IsBuilt (suc rounds) s h g =
      ended (fee_round a min_change s) (fee_round-IsEnd s h g)
        (λ s' k. fee_rounds-IsBuilt rounds s' k.0 k.1)
    where
      ended :
          (r : Round Tx)
          → IsEnd r
          → ((s' : FeeState)
              → IsEnd (again s')
              → IsBuilt a min_change start initial (fee_rounds a rounds min_change s'))
          → IsBuilt a min_change start initial
              (elim r [ finished x ↦ x | again s' ↦ fee_rounds a rounds min_change s' ])
      ended (finished x) k f = k
      ended (again s') k f = f s' k

module _ {Tx : Type 0} (a : TxAdaptor Tx) where
  -- Within its sixteen rounds the fee builder returns an error, or a transaction that the adaptor built from inputs
  -- and with the returned change, with the fee that the adaptor measured for these inputs; or else what the
  -- bytes of such a transaction decode to, and then that fee is above the transaction's target. The
  -- inputs and the change are reached from the given ones by rounds that build, measure and
  -- perform the plan for the difference of the fees: they change the change as planned, and add a selection from
  -- the inputs that are available, not an empty one, where the plan asks for inputs.
  pub build_with_fee_floor-IsBuilt :
      (cover : BitcoinCoverUtxoProvider) (initial_change min_change : ℕ)
      → IsBuilt a min_change cover initial_change
          (build_with_fee_floor a cover initial_change min_change)
  unfolding build_with_fee_floor
  build_with_fee_floor-IsBuilt cover initial_change min_change =
      fee_rounds-IsBuilt a min_change cover initial_change 16
        (record { cover = cover; change = initial_change; last_size = none; best_overpay = none })
        tt begins
