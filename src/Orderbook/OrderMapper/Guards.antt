-- ===== src/Orderbook/OrderMapper/Guards.antt =====
-- What the four guards of orderbook/src/order_mapper.rs answer true to.
use uni_pay.Orderbook.OrderMapper.{
  Floats, OrderMapper, Surroundings, can_initiate, can_instant_refund, can_redeem, can_refund,
  has_bitcoin, has_expired, has_refund, has_valid_initiate, is_source_ready, is_swap_completed,
  is_valid_block_number, passes_additional_check,
}
use uni_pay.Orderbook.Types.{
  MatchedOrderVerbose, SingleSwap, maybe_is_some, on_initiate, on_instant_refund, on_redeem,
  on_refund,
}
use uni_pay.Prelude.{
  Bool, Bool-cases, Option, and_left, ap, arith, bind_ok, eq_of_beq, false, guard_ok, guard_true,
  if◌then◌else◌, inl, inr, ltb, nat_eq, none, not, not-false, ok, or_left, or_right, refl, some,
  sym, true, ℕ, ◌&&◌, ◌+◌, ◌<◌, ◌==◌, ◌||◌, ◌∙◌, ◌≡◌, ◌≤◌,
}

-- The destination swap is at the solver's risk: initiated, and neither redeemed nor refunded.
abbrev pub is_at_risk : SingleSwap → Bool
is_at_risk s = maybe_is_some s.initiate_tx_hash && not (is_swap_completed s)

module _ {F : Type 0} (f : Floats F) (e : Surroundings F) (m : OrderMapper F)
    (o : MatchedOrderVerbose F) where
  pub can_instant_refund-true :
      can_instant_refund f e m o ≡ ok true
      → (has_valid_initiate o.source_swap ≡ true)
        × (has_refund o.source_swap ≡ false)
        × (is_at_risk o.destination_swap ≡ false)
  unfolding can_instant_refund
  can_instant_refund-true h =
      let (_, h1) = guard_ok (not (passes_additional_check f e m on_instant_refund o)) _ h in
      let (sourced, h2) =
        guard_ok (not (has_valid_initiate o.source_swap) || has_refund o.source_swap) _ h1 in
      let (safe, _) = guard_ok (is_at_risk o.destination_swap) _ h2 in
      (
        not-false (has_valid_initiate o.source_swap)
            (or_left (not (has_valid_initiate o.source_swap)) _ sourced),
        or_right (not (has_valid_initiate o.source_swap)) _ sourced,
        safe,
      )

  pub can_initiate-true :
      can_initiate f e m o ≡ ok true
      → (o.additional_data.is_blacklisted ≡ false)
        × (maybe_is_some o.source_swap.initiate_tx_hash ≡ true)
        × (maybe_is_some o.destination_swap.initiate_tx_hash ≡ false)
        × (o.source_swap.filled_amount ≡ o.source_swap.amount)
        × (can_instant_refund f e m o ≡ ok false)
  unfolding can_initiate
  can_initiate-true h =
      let (fair, h1) = guard_ok o.additional_data.is_blacklisted _ h in
      let (ready, h2) = guard_ok (not (is_source_ready f e m o.source_swap)) _ h1 in
      let (uninitiated, h3) = guard_ok (maybe_is_some o.destination_swap.initiate_tx_hash) _ h2 in
      let (filled, h4) =
        guard_ok (not (o.source_swap.filled_amount == o.source_swap.amount)) _ h3 in
      let (_, h5) = guard_ok (not (passes_additional_check f e m on_initiate o)) _ h4 in
      let (refunds, decided, negated) = bind_ok (can_instant_refund f e m o) _ h5 in
      let no_refund : refunds ≡ false = ground arith in
      (
        fair,
        ready_initiated (not-false (is_source_ready f e m o.source_swap) ready),
        uninitiated,
        eq_of_beq o.source_swap.filled_amount o.source_swap.amount
            (not-false (o.source_swap.filled_amount == o.source_swap.amount) filled),
        decided ∙ ap ok no_refund,
      )
    where
      ready_initiated :
          is_source_ready f e m o.source_swap ≡ true
          → maybe_is_some o.source_swap.initiate_tx_hash ≡ true
      ready_initiated r = elim (Bool-cases (has_bitcoin o.source_swap.chain)) [
        | inl bitcoin ↦
            ap
              (λ b.
                if b
                then maybe_is_some o.source_swap.initiate_tx_hash
                else has_valid_initiate o.source_swap
                  && not (
                      ltb o.source_swap.current_confirmations o.source_swap.required_confirmations))
              (sym bitcoin)
            ∙ r
        | inr other ↦
            let both : (has_valid_initiate o.source_swap
                  && not (
                      ltb o.source_swap.current_confirmations o.source_swap.required_confirmations))
                ≡ true =
              ap
                (λ b.
                  if b
                  then maybe_is_some o.source_swap.initiate_tx_hash
                  else has_valid_initiate o.source_swap
                    && not (
                        ltb o.source_swap.current_confirmations
                          o.source_swap.required_confirmations))
                (sym other)
              ∙ r in
            unfold has_valid_initiate in
            and_left (maybe_is_some o.source_swap.initiate_tx_hash) _ (and_left _ _ both)
      ]

  pub can_refund-true :
      (n : ℕ)
      → can_refund f e m o n ≡ true
      → (is_swap_completed o.destination_swap ≡ false)
        × ((b : ℕ) × (o.destination_swap.initiate_block_number ≡ some b)
            × (0 < b)
            × (b + o.destination_swap.timelock ≤ n))
  unfolding can_refund
  can_refund-true n h =
      let (open_swap, h1) = guard_true (is_swap_completed o.destination_swap) _ h in
      let (valid, h2) =
        guard_true (not (is_valid_block_number o.destination_swap.initiate_block_number)) _ h1 in
      let (_, h3) = guard_true (not (passes_additional_check f e m on_refund o)) _ h2 in
      (
        open_swap,
        blocks o.destination_swap.initiate_block_number refl
            (not-false (is_valid_block_number o.destination_swap.initiate_block_number) valid) h3,
      )
    where
      blocks :
          (b : Option ℕ)
          → o.destination_swap.initiate_block_number ≡ b
          → is_valid_block_number b ≡ true
          → has_expired f e m b o.destination_swap.timelock n ≡ true
          → (k : ℕ) × (o.destination_swap.initiate_block_number ≡ some k)
            × (0 < k)
            × (k + o.destination_swap.timelock ≤ n)
      blocks none at v x = cc
      blocks (some k) at v x = (k, at, ground arith, ground arith)

  pub can_redeem-true :
      can_redeem f e m o ≡ true
      → (is_swap_completed o.source_swap ≡ false)
        × (has_valid_initiate o.source_swap ≡ true)
        × (maybe_is_some o.destination_swap.secret ≡ true)
  unfolding can_redeem
  can_redeem-true h =
      let (open_swap, h1) = guard_true (is_swap_completed o.source_swap) _ h in
      let (valid, h2) = guard_true (not (has_valid_initiate o.source_swap)) _ h1 in
      let (_, h3) = guard_true (not (passes_additional_check f e m on_redeem o)) _ h2 in
      (open_swap, not-false (has_valid_initiate o.source_swap) valid, h3)
