-- ===== src/EvmWatcher/Watcher/Moves.antt =====
-- What the watcher of evm-watcher/src/watcher/watcher.rs writes into the table of swaps.
use uni_pay.EvmWatcher.Events.{is_valid_event}
use uni_pay.EvmWatcher.Store.{belongs, initiates, is_initiate, is_refund}
use uni_pay.EvmWatcher.Swaps.{SingleSwap, SwapEvent, redeem}
use uni_pay.Prelude.{
  List, ap, arith, get_elem?, inl, inr, ltb, refl, some, sym, true, ℕ, ◌&&◌, ◌+◌, ◌∙◌, ◌≡◌, ◌≤◌,
  ◌⊎◌,
}

-- The event fits a swap that the cache has under its id.
abbrev pub IsOfCached : List SingleSwap → SwapEvent → Type 0
IsOfCached swaps e =
    (i : ℕ) × (s : SingleSwap) × (get_elem? swaps i ≡ some s)
    × (s.swap_id ≡ e.swap_id)
    × (is_valid_event e s ≡ true)

-- The columns that the watcher never writes.
abbrev pub IsSameSwap : SingleSwap → SingleSwap → Type 0
IsSameSwap s s' =
    (s'.swap_id ≡ s.swap_id)
    × (s'.chain ≡ s.chain)
    × (s'.asset ≡ s.asset)
    × (s'.redeemer ≡ s.redeemer)
    × (s'.timelock ≡ s.timelock)
    × (s'.required_confirmations ≡ s.required_confirmations)
    × (s'.created_at ≡ s.created_at)

module _ (swaps : List SingleSwap) where
  abbrev pub IsInitiated : SingleSwap → SingleSwap → Type 0
  IsInitiated s s' =
      ((s'.initiate_tx_hash ≡ s.initiate_tx_hash)
        × (s'.initiate_block_number ≡ s.initiate_block_number)
        × (s'.filled_amount ≡ s.filled_amount)
        × (s'.initiate_timestamp ≡ s.initiate_timestamp))
      ⊎ ((e : SwapEvent) × IsOfCached swaps e
          × (is_initiate e.event_type ≡ true)
          × (initiates e s ≡ true)
          × (s'.initiate_tx_hash ≡ e.tx_info.tx_hash)
          × (s'.initiate_block_number ≡ some e.tx_info.block_number)
          × (s'.filled_amount ≡ e.order.amount)
          × (s'.initiate_timestamp ≡ some e.tx_info.timestamp))

  abbrev pub IsRedeemed : SingleSwap → SingleSwap → Type 0
  IsRedeemed s s' =
      ((s'.redeem_tx_hash ≡ s.redeem_tx_hash)
        × (s'.secret ≡ s.secret)
        × (s'.redeem_block_number ≡ s.redeem_block_number)
        × (s'.redeem_timestamp ≡ s.redeem_timestamp))
      ⊎ ((e : SwapEvent) × IsOfCached swaps e
          × (e.event_type ≡ redeem s'.secret)
          × (belongs e s ≡ true)
          × (s'.redeem_tx_hash ≡ e.tx_info.tx_hash)
          × (s'.redeem_block_number ≡ some e.tx_info.block_number)
          × (s'.redeem_timestamp ≡ some e.tx_info.timestamp))

  abbrev pub IsRefunded : SingleSwap → SingleSwap → Type 0
  IsRefunded s s' =
      ((s'.refund_tx_hash ≡ s.refund_tx_hash)
        × (s'.refund_block_number ≡ s.refund_block_number)
        × (s'.refund_timestamp ≡ s.refund_timestamp))
      ⊎ ((e : SwapEvent) × IsOfCached swaps e
          × (is_refund e.event_type ≡ true)
          × (belongs e s ≡ true)
          × (s'.refund_tx_hash ≡ e.tx_info.tx_hash)
          × (s'.refund_block_number ≡ some e.tx_info.block_number)
          × (s'.refund_timestamp ≡ some e.tx_info.timestamp))

  -- The confirmations stay, or are those of a new initiation, or are no more than are required.
  abbrev pub IsCounted : SingleSwap → SingleSwap → Type 0
  IsCounted s s' =
      (s'.current_confirmations ≡ s.current_confirmations)
      ⊎ ((s'.current_confirmations ≡ 1) ⊎ (s'.current_confirmations ≤ s'.required_confirmations))

  -- How a row may change.
  abbrev pub Moves : SingleSwap → SingleSwap → Type 0
  Moves s s' =
      IsSameSwap s s' × IsInitiated s s' × IsRedeemed s s' × IsRefunded s s' × IsCounted s s'

  pub Moves-refl : (s : SingleSwap) → Moves s s
  Moves-refl s = (
    (refl, refl, refl, refl, refl, refl, refl),
    inl (refl, refl, refl, refl),
    inl (refl, refl, refl, refl),
    inl (refl, refl, refl),
    inl refl,
  )

  belongs_same : (e : SwapEvent) (s s' : SingleSwap) → IsSameSwap s s' → belongs e s' ≡ belongs e s
  unfolding belongs
  belongs_same e s s' (id, chain, asset, redeemer, timelock, _, _) =
      rw (id, chain, asset, redeemer, timelock)

  initiates_same :
      (e : SwapEvent) (s s' : SingleSwap) → IsSameSwap s s' → initiates e s' ≡ initiates e s
  unfolding initiates
  initiates_same e s s' h =
      ap (λ b. b && ltb s'.created_at (e.tx_info.timestamp + 60)) (belongs_same e s s' h)
      ∙ ap (λ c. belongs e s && ltb c (e.tx_info.timestamp + 60)) h.6

  pub Moves-trans : (r s t : SingleSwap) → Moves r s → Moves s t → Moves r t
  Moves-trans r s t (same, init, redeemed, refunded, counted)
        (same', init', redeemed', refunded', counted') =
      (
        (
          same'.0 ∙ same.0,
          same'.1 ∙ same.1,
          same'.2 ∙ same.2,
          same'.3 ∙ same.3,
          same'.4 ∙ same.4,
          same'.5 ∙ same.5,
          same'.6 ∙ same.6,
        ),
        initiated_by init init',
        redeemed_by redeemed redeemed',
        refunded_by refunded refunded',
        counted_by counted counted',
      )
    where
      initiated_by : IsInitiated r s → IsInitiated s t → IsInitiated r t
      initiated_by h (inr (e, valid, kind, fits, a, b, c, g)) =
          inr (e, valid, kind, sym (initiates_same e r s same) ∙ fits, a, b, c, g)
      initiated_by (inl (a, b, c, g)) (inl (d, e, f, h)) = inl (d ∙ a, e ∙ b, f ∙ c, h ∙ g)
      initiated_by (inr (e, valid, kind, fits, a, b, c, g)) (inl (x, y, z, t)) =
          inr (e, valid, kind, fits, x ∙ a, y ∙ b, z ∙ c, t ∙ g)

      redeemed_by : IsRedeemed r s → IsRedeemed s t → IsRedeemed r t
      redeemed_by h (inr (e, valid, kind, fits, a, i, j)) =
          inr (e, valid, kind, sym (belongs_same e r s same) ∙ fits, a, i, j)
      redeemed_by (inl (a, b, i, j)) (inl (c, d, k, l)) = inl (c ∙ a, d ∙ b, k ∙ i, l ∙ j)
      redeemed_by (inr (e, valid, kind, fits, k, i, j)) (inl (c, d, l, m)) =
          inr (e, valid, kind ∙ ap redeem (sym d), fits, c ∙ k, l ∙ i, m ∙ j)

      refunded_by : IsRefunded r s → IsRefunded s t → IsRefunded r t
      refunded_by h (inr (e, valid, kind, fits, a, i, j)) =
          inr (e, valid, kind, sym (belongs_same e r s same) ∙ fits, a, i, j)
      refunded_by (inl (a, i, j)) (inl (b, k, l)) = inl (b ∙ a, k ∙ i, l ∙ j)
      refunded_by (inr (e, valid, kind, fits, a, i, j)) (inl (b, k, l)) =
          inr (e, valid, kind, fits, b ∙ a, k ∙ i, l ∙ j)

      counted_by : IsCounted r s → IsCounted s t → IsCounted r t
      counted_by h (inr k) = inr k
      counted_by (inl a) (inl b) = inl (b ∙ a)
      counted_by (inr (inl a)) (inl b) = inr (inl (b ∙ a))
      counted_by (inr (inr a)) (inl b) =
          let required = same'.5 in inr (inr (omega (arith, b, required, a)))
