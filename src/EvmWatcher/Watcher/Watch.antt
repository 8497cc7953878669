-- ===== src/EvmWatcher/Watcher/Watch.antt =====
-- One round of the watcher of evm-watcher/src/watcher/watcher.rs.
use uni_pay.EvmWatcher.Events.{WatchError, validate_events}
use uni_pay.EvmWatcher.Store.{Chooser}
use uni_pay.EvmWatcher.Swaps.{OnChainOrder, SingleSwap, SwapEvent}
use uni_pay.EvmWatcher.Watcher.{
  Chain, Confirmations, Logs, WatcherState, create_event_blocks_ranges, fetch_onchain_orders,
  finished_at, prepared, process_events, process_stream, store_batch, store_confirmations,
  valid_swaps, watch, watch_at, watch_orders, watch_valid,
}
use uni_pay.EvmWatcher.Watcher.Moves.{Moves, Moves-refl}
use uni_pay.EvmWatcher.Watcher.Safety.{
  IsPart, Pairwise-trans, update_confirmations-Moves, update_events-Moves,
  validate_events-IsOfCached,
}
use uni_pay.Prelude.{
  Bool, Bool-cases, List, Pairwise, Pairwise-refl, Result, Text, [], ap, err, filter, get_elem?,
  if◌then◌else◌, inl, inr, is_empty, ltb, map, ok, some, suc, sym, zero, ℕ, ◌||◌, ◌∙◌, ◌∷◌, ◌≡◌,
}

get_elem?-filter :
    {A : Type 0} (f : A → Bool) (xs : List A) (i : ℕ) (x : A)
    → get_elem? (filter f xs) i ≡ some x
    → (j : ℕ) × (get_elem? xs j ≡ some x)
get_elem?-filter f [] i x e = cc
get_elem?-filter f (y ∷ xs) i x e = elim (Bool-cases (f y)) [
  | inl in_case ↦
      headed (λ k. get_elem?-filter f xs k x) i
        (ap (λ b. get_elem? (if b then y ∷ filter f xs else filter f xs) i) (sym in_case) ∙ e)
  | inr out_case ↦
      let (j, at) =
        get_elem?-filter f xs i x
          (ap (λ b. get_elem? (if b then y ∷ filter f xs else filter f xs) i) (sym out_case) ∙ e) in
      (suc j, at)
]
  where
    headed :
        ((k : ℕ) → get_elem? (filter f xs) k ≡ some x → (j : ℕ) × (get_elem? xs j ≡ some x))
        → (i : ℕ) → get_elem? (y ∷ filter f xs) i ≡ some x
        → (j : ℕ) × (get_elem? (y ∷ xs) j ≡ some x)
    headed rest zero h = (0, h)
    headed rest (suc k) h = let (j, at) = rest k h in (suc j, at)

module _ (cached : List SingleSwap) (choice : Chooser) (c : Chain) where
  module _ (swaps : List SingleSwap) (part : IsPart cached swaps)
      (orders : List (Text × OnChainOrder)) (current : ℕ) where
    store_batch-Moves :
        (events : List SwapEvent) (confs : Confirmations) (t : List SingleSwap)
        → Pairwise (Moves cached) t (store_batch choice c swaps orders current events confs t).1
    unfolding store_batch
    store_batch-Moves events confs t = elim (Bool-cases (is_empty (validate_events swaps events))) [
      | inl invalid ↦ rw invalid (Pairwise-refl (Moves cached) (Moves-refl cached) t)
      | inr valid ↦ rw valid (
          update_events-Moves cached choice (validate_events swaps events) t
            (validate_events-IsOfCached cached swaps events part))
    ]

    process_stream-Moves :
        (batches : List (Result WatchError Logs)) (confs : Confirmations) (t : List SingleSwap)
        → Pairwise (Moves cached) t (process_stream choice c swaps orders current batches confs t).1
    unfolding process_stream
    process_stream-Moves [] confs t = Pairwise-refl (Moves cached) (Moves-refl cached) t
    process_stream-Moves (batch ∷ batches) confs t =
        step (prepared choice c swaps orders current batch) (process_stream-Moves batches)
      where
        step :
            (r : Result WatchError (List SwapEvent))
            → ((confs : Confirmations) (t : List SingleSwap)
                → Pairwise
                    (Moves cached)
                    t
                    (process_stream choice c swaps orders current batches confs t).1)
            → Pairwise (Moves cached) t (
                let out : Result WatchError Confirmations × List SingleSwap = elim r [
                  | err e ↦ (err e, t)
                  | ok events ↦
                      let (confs', t') = store_batch choice c swaps orders current events confs t in
                      process_stream choice c swaps orders current batches confs' t'
                ] in
                out.1)
        step (err e) rest = Pairwise-refl (Moves cached) (Moves-refl cached) t
        step (ok events) rest =
            let stored = store_batch choice c swaps orders current events confs t in
            Pairwise-trans cached t stored.1 _ (store_batch-Moves events confs t)
              (rest stored.0 stored.1)

    process_events-Moves :
        (t : List SingleSwap)
        → Pairwise (Moves cached) t (process_events choice c swaps orders current t).1
    unfolding process_events
    process_events-Moves t =
        let ranges = create_event_blocks_ranges orders c.max_block_span in
        elim (Bool-cases (is_empty ranges)) [
          | inl idle ↦ rw idle (Pairwise-refl (Moves cached) (Moves-refl cached) t)
          | inr busy ↦ rw busy (
              confirmed_lem (process_stream choice c swaps orders current (map c.query ranges) [] t)
                (process_stream-Moves (map c.query ranges) [] t))
        ]
      where
        confirmed_lem :
            (r : Result WatchError Confirmations × List SingleSwap)
            → Pairwise (Moves cached) t r.1
            → Pairwise (Moves cached) t (store_confirmations choice c swaps orders current r).1
        confirmed_lem (err e, t') h = h
        confirmed_lem (ok confs, t') h =
            Pairwise-trans cached t t' _ h (update_confirmations-Moves cached confs t')

  watch_valid-Moves :
      (current : ℕ) (p : List SingleSwap × List (Text × OnChainOrder)) (w : WatcherState)
      → IsPart cached p.0
      → Pairwise (Moves cached) w.swaps (watch_valid choice c current p w).1.swaps
  unfolding watch_valid
  watch_valid-Moves current (swaps, orders) w part =
      elim (Bool-cases (is_empty swaps || is_empty orders)) [
        | inl idle ↦ rw idle (Pairwise-refl (Moves cached) (Moves-refl cached) w.swaps)
        | inr busy ↦ rw busy (
            kept_table (process_events choice c swaps orders current w.swaps)
              (process_events-Moves swaps part orders current w.swaps))
      ]
    where
      kept_table :
          (r : Result WatchError (Unit {0}) × List SingleSwap)
          → Pairwise (Moves cached) w.swaps r.1
          → Pairwise (Moves cached) w.swaps (finished_at choice c current w r).1.swaps
      kept_table (err e, t) h = h
      kept_table (ok u, t) h = h

  watch_at-Moves :
      (orders : List (Text × OnChainOrder)) (block : Result WatchError ℕ) (w : WatcherState)
      → Pairwise (Moves cached) w.swaps (watch_at choice c cached orders block w).1.swaps
  unfolding valid_swaps
  watch_at-Moves orders (err e) w = Pairwise-refl (Moves cached) (Moves-refl cached) w.swaps
  watch_at-Moves orders (ok current) w = elim (Bool-cases (ltb current w.previous_block)) [
    | inl behind ↦ rw behind (Pairwise-refl (Moves cached) (Moves-refl cached) w.swaps)
    | inr ahead ↦ rw ahead (
        watch_valid-Moves current (valid_swaps cached orders current) w
          (λ i s e. get_elem?-filter _ cached i s e))
  ]

  watch_orders-Moves :
      (orders : Result WatchError (List (Text × OnChainOrder))) (w : WatcherState)
      → Pairwise (Moves cached) w.swaps (watch_orders choice c cached orders w).1.swaps
  watch_orders-Moves (err e) w = Pairwise-refl (Moves cached) (Moves-refl cached) w.swaps
  watch_orders-Moves (ok orders) w = elim (Bool-cases (is_empty orders)) [
    | inl idle ↦ rw idle (Pairwise-refl (Moves cached) (Moves-refl cached) w.swaps)
    | inr busy ↦ rw busy (watch_at-Moves orders c.get_block_number w)
  ]

  -- Whatever the chain answers, errors included, a round of the watcher changes the rows of the table only like this:
  -- the identifying columns stay; the columns of an initiation, of a redemption with its secret, and of a refund
  -- stay, or are those of an event of that kind that fits a cached swap of its id and the row itself; and
  -- the confirmations stay, or are 1, or are at most the required ones.
  pub watch-Moves :
      (w : WatcherState) → Pairwise (Moves cached) w.swaps (watch choice c (some cached) w).1.swaps
  unfolding watch
  watch-Moves w = elim (Bool-cases (is_empty cached)) [
    | inl idle ↦ rw idle (Pairwise-refl (Moves cached) (Moves-refl cached) w.swaps)
    | inr busy ↦ rw busy (watch_orders-Moves (fetch_onchain_orders c cached) w)
  ]
