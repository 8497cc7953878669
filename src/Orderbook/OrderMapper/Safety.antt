-- ===== src/Orderbook/OrderMapper/Safety.antt =====
-- When the order mapper takes which action.

use mathlib.Core.Path.{subst}
use uni_pay.Orderbook.OrderMapper.{
  Floats, OrderMapper, Surroundings, act, can_initiate, can_instant_refund, can_redeem,
  check_destination_chain_actions, check_source_chain_actions, first_action, has_refund,
  has_valid_initiate, hex_to_bytes, is_chain_supported, is_refundable_at, is_swap_completed,
  map_order, or_no_op,
}
use uni_pay.Orderbook.OrderMapper.Guards.{
  can_initiate-true, can_instant_refund-true, can_redeem-true, can_refund-true, is_at_risk,
}
use uni_pay.Orderbook.Types.{
  ActionWithInfo, HtlcAction, MapError, MatchedOrderVerbose, initiate, instant_refund,
  maybe_is_some, no_op, redeem, refund,
}
use uni_pay.Prelude.{
  Bool, Bool-cases, Option, Result, ap, bind_ok, false, if◌then◌else◌, inl, inr, none, ok,
  ok_injective, refl, some, sym, true, ℕ, ◌+◌, ◌<◌, ◌>>=◌, ◌∙◌, ◌≡◌, ◌≤◌,
}

module _ {F : Type 0} (f : Floats F) (e : Surroundings F) (m : OrderMapper F)
    (o : MatchedOrderVerbose F) where
  -- What justifies each action.
  abbrev pub Justifies : Option ℕ → HtlcAction → Type 0
  Justifies latest initiate =
      (is_chain_supported f e m o.destination_swap.chain ≡ true)
      × (o.additional_data.is_blacklisted ≡ false)
      × (maybe_is_some o.source_swap.initiate_tx_hash ≡ true)
      × (maybe_is_some o.destination_swap.initiate_tx_hash ≡ false)
      × (o.source_swap.filled_amount ≡ o.source_swap.amount)
      × (can_instant_refund f e m o ≡ ok false)
  Justifies latest refund =
      (is_chain_supported f e m o.destination_swap.chain ≡ true)
      × (is_swap_completed o.destination_swap ≡ false)
      × ((b n : ℕ) × (latest ≡ some n)
          × (o.destination_swap.initiate_block_number ≡ some b)
          × (0 < b)
          × (b + o.destination_swap.timelock ≤ n))
  Justifies latest (redeem secret) =
      (is_chain_supported f e m o.source_swap.chain ≡ true)
      × (is_swap_completed o.source_swap ≡ false)
      × (has_valid_initiate o.source_swap ≡ true)
      × (maybe_is_some o.destination_swap.secret ≡ true)
      × (hex_to_bytes e.from_hex o.destination_swap.secret ≡ ok secret)
  Justifies latest instant_refund =
      (is_chain_supported f e m o.source_swap.chain ≡ true)
      × (has_valid_initiate o.source_swap ≡ true)
      × (has_refund o.source_swap ≡ false)
      × (is_at_risk o.destination_swap ≡ false)
      × (can_redeem f e m o ≡ false)
  Justifies latest no_op = Unit

  abbrev IsRight : Option ℕ → Option ActionWithInfo → Type 0
  IsRight latest none = Unit
  IsRight latest (some a) = Justifies latest a.action

  source-IsRight :
      (latest : Option ℕ) (a : Option ActionWithInfo)
      → check_source_chain_actions f e m o ≡ ok a
      → IsRight latest a
  unfolding check_source_chain_actions
  source-IsRight latest a h = elim (Bool-cases (is_chain_supported f e m o.source_swap.chain)) [
    | inr foreign ↦
        let same : none ≡ a =
          ok_injective (ap (λ b. if b then actions else ok none) (sym foreign) ∙ h) refl refl in
        subst (IsRight latest) same tt
    | inl supported ↦
        let h1 : actions ≡ ok a = ap (λ b. if b then actions else ok none) (sym supported) ∙ h in
        elim (Bool-cases (can_redeem f e m o)) [
          | inl redeems ↦
              let h2 : redeeming ≡ ok a =
                ap (λ b. if b then redeeming else refunding) (sym redeems) ∙ h1 in
              let (secret, decoded, h3) =
                bind_ok (hex_to_bytes e.from_hex o.destination_swap.secret) _ h2 in
              let (open_swap, valid, known) = can_redeem-true f e m o redeems in
              subst (IsRight latest) (ok_injective h3 refl refl)
                (supported, open_swap, valid, known, decoded)
          | inr keeps ↦
              let h2 : refunding ≡ ok a =
                ap (λ b. if b then redeeming else refunding) (sym keeps) ∙ h1 in
              let (refunds, decided, h3) = bind_ok (can_instant_refund f e m o) _ h2 in
              subst (IsRight latest) (ok_injective h3 refl refl)
                (refunded refunds decided supported keeps)
        ]
  ]
    where
      redeeming : Result MapError (Option ActionWithInfo)
      redeeming = hex_to_bytes e.from_hex o.destination_swap.secret >>= λ secret.
          ok (act f e m (redeem secret) o.source_swap)

      refunding : Result MapError (Option ActionWithInfo)
      refunding = can_instant_refund f e m o >>= λ refunds.
          ok (if refunds then act f e m instant_refund o.source_swap else none)

      actions : Result MapError (Option ActionWithInfo)
      actions = if can_redeem f e m o then redeeming else refunding

      refunded :
          (refunds : Bool)
          → can_instant_refund f e m o ≡ ok refunds
          → is_chain_supported f e m o.source_swap.chain ≡ true
          → can_redeem f e m o ≡ false
          → IsRight latest (if refunds then act f e m instant_refund o.source_swap else none)
      refunded false decided supported keeps = tt
      refunded true decided supported keeps =
          let (valid, fresh_refund, safe) = can_instant_refund-true f e m o decided in
          (supported, valid, fresh_refund, safe, keeps)

  destination-IsRight :
      (latest : Option ℕ) (a : Option ActionWithInfo)
      → check_destination_chain_actions f e m o latest ≡ ok a
      → IsRight latest a
  unfolding check_destination_chain_actions
  destination-IsRight latest a h =
      elim (Bool-cases (is_chain_supported f e m o.destination_swap.chain)) [
        | inr foreign ↦
            let same : none ≡ a =
              ok_injective (ap (λ b. if b then actions else ok none) (sym foreign) ∙ h) refl refl in
            subst (IsRight latest) same tt
        | inl supported ↦
            let h1 : actions ≡ ok a =
              ap (λ b. if b then actions else ok none) (sym supported) ∙ h in
            elim (Bool-cases (is_refundable_at f e m o latest)) [
              | inl due ↦
                  let h2 : ok (act f e m refund o.destination_swap) ≡ ok a =
                    ap (λ b. if b then ok (act f e m refund o.destination_swap) else initiating)
                      (sym due)
                    ∙ h1 in
                  subst (IsRight latest) (ok_injective h2 refl refl) (refunded latest due supported)
              | inr early ↦
                  let h2 : initiating ≡ ok a =
                    ap (λ b. if b then ok (act f e m refund o.destination_swap) else initiating)
                      (sym early)
                    ∙ h1 in
                  let (initiates, decided, h3) = bind_ok (can_initiate f e m o) _ h2 in
                  subst (IsRight latest) (ok_injective h3 refl refl)
                    (initiated initiates decided supported)
            ]
      ]
    where
      initiating : Result MapError (Option ActionWithInfo)
      initiating = can_initiate f e m o >>= λ initiates.
          ok (if initiates then act f e m initiate o.destination_swap else none)

      actions : Result MapError (Option ActionWithInfo)
      actions =
          if is_refundable_at f e m o latest
          then ok (act f e m refund o.destination_swap)
          else initiating

      refunded :
          (l : Option ℕ)
          → is_refundable_at f e m o l ≡ true
          → is_chain_supported f e m o.destination_swap.chain ≡ true
          → Justifies l refund
      refunded none due supported = cc
      refunded (some n) due supported =
          let (open_swap, (b, at, positive, late)) = can_refund-true f e m o n due in
          (supported, open_swap, (b, n, refl, at, positive, late))

      initiated :
          (initiates : Bool)
          → can_initiate f e m o ≡ ok initiates
          → is_chain_supported f e m o.destination_swap.chain ≡ true
          → IsRight latest (if initiates then act f e m initiate o.destination_swap else none)
      initiated false decided supported = tt
      initiated true decided supported =
          let (fair, sourced, uninitiated, filled, kept) = can_initiate-true f e m o decided in
          (supported, fair, sourced, uninitiated, filled, kept)

  -- An order is mapped to an action only if the action is justified. Initiate: the destination chain is
  -- supported, the order is not blacklisted, its source is initiated and filled with exactly its amount, its
  -- destination is not initiated, and no instant refund is due. Refund: the destination is neither redeemed
  -- nor refunded, and its timelock is over at the given block. Redeem: the source is initiated and not
  -- completed, and the destination's secret is known and decodes to the given bytes. Instant refund: the
  -- source is initiated and not refunded, cannot be redeemed, and the destination is not at risk: it is
  -- not initiated, or already redeemed or refunded.
  pub map_order-Justifies :
      (latest : Option ℕ) (a : ActionWithInfo)
      → map_order f e m o latest ≡ ok a
      → Justifies latest a.action
  unfolding map_order
  map_order-Justifies latest a h =
      let (found, first, h1) = bind_ok (check_destination_chain_actions f e m o latest) _ h in
      later found (destination-IsRight latest found first) h1
    where
      later :
          (found : Option ActionWithInfo)
          → IsRight latest found
          → first_action f e m found (check_source_chain_actions f e m o) ≡ ok a
          → Justifies latest a.action
      later (some b) right x =
          subst (λ c. Justifies latest c.action) (ok_injective x refl refl) right
      later none right x =
          let (second, seen, x1) = bind_ok (check_source_chain_actions f e m o) _ x in
          subst (λ c. Justifies latest c.action) (ok_injective x1 refl refl)
            (chosen second (source-IsRight latest second seen))
        where
          chosen :
              (s : Option ActionWithInfo)
              → IsRight latest s
              → Justifies latest (or_no_op f e m s).action
          chosen none r = tt
          chosen (some b) r = r
