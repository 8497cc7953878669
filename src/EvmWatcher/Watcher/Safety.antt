-- ===== src/EvmWatcher/Watcher/Safety.antt =====
-- What the watcher of evm-watcher/src/watcher/watcher.rs writes into the table of swaps, on every path.
use uni_pay.EvmWatcher.Events.{is_for, validate_events}
use uni_pay.EvmWatcher.Store.{
  Chooser, belongs, confirm, handle_inits, handle_redeems, handle_refunds, initiates, is_initiate,
  is_redeem, is_refund, secret_of, set_initiated, set_redeemed, set_refunded, update_by,
  update_confirmations, update_events, update_from,
}
use uni_pay.EvmWatcher.Swaps.{SingleSwap, SwapEvent, SwapEventType, initiate, redeem, refund}
use uni_pay.EvmWatcher.Watcher.Moves.{IsOfCached, IsSameSwap, Moves, Moves-refl, Moves-trans}
use uni_pay.Prelude.{
  All, All-filter, All-get_elem?, All-weaken, All-zip, Bool, Bool-cases, List, Option, Pairwise,
  Pairwise-refl, Text, [], arith, contains, filter, filter-All, get_elem?, hash_map, hash_map-All,
  inl, inr, list_eq, lookup, lookup-All, map, nat_eq, none, refl, some, suc, true, ℕ, ◌∷◌, ◌≡◌,
}
use uni_pay.SolverOrders.Unseen.{ids}

-- The swaps by their ids: each is a swap of the list, with its own id.
abbrev IsEntry : List SingleSwap → Text × SingleSwap → Type 0
IsEntry swaps (k, s) = (i : ℕ) × (get_elem? swaps i ≡ some s) × (s.swap_id ≡ k)

entries-All :
    (all_swaps swaps : List SingleSwap)
    → ((i : ℕ) (s : SingleSwap)
        → get_elem? swaps i ≡ some s
        → (j : ℕ) × (get_elem? all_swaps j ≡ some s))
    → All (IsEntry all_swaps) (map (λ s. (s.swap_id, s)) swaps)
entries-All all_swaps [] h = tt
entries-All all_swaps (s ∷ swaps) h = (
  (let (j, at) = h 0 s refl in (j, at, refl)),
  entries-All all_swaps swaps (λ i x e. h (suc i) x e),
)

module _ (swaps : List SingleSwap) where
  -- Every swap of the first list is one of the second.
  abbrev pub IsPart : List SingleSwap → Type 0
  IsPart part =
      (i : ℕ) (s : SingleSwap) → get_elem? part i ≡ some s → (j : ℕ) × (get_elem? swaps j ≡ some s)

  pub validate_events-IsOfCached :
      (part : List SingleSwap) (events : List SwapEvent)
      → IsPart part
      → All (IsOfCached swaps) (validate_events part events)
  unfolding validate_events
  validate_events-IsOfCached part events embed =
      let swap_lookup = hash_map (map (λ s. (s.swap_id, s)) part) in
      let entries =
        hash_map-All (IsEntry swaps) (map (λ s. (s.swap_id, s)) part)
          (entries-All swaps part embed) in
      All-weaken (filter (λ e. is_for e (lookup e.swap_id swap_lookup)) events)
        (λ e h.
          fitting e (lookup e.swap_id swap_lookup)
            (λ s at. lookup-All (IsEntry swaps) e.swap_id swap_lookup entries at) h)
        (filter-All (λ e. is_for e (lookup e.swap_id swap_lookup)) events)
    where
      fitting :
          (e : SwapEvent) (o : Option SingleSwap)
          → ((s : SingleSwap) → o ≡ some s → IsEntry swaps (e.swap_id, s))
          → is_for e o ≡ true
          → IsOfCached swaps e
      fitting e none f h = cc
      fitting e (some s) f h = let (i, at, id) = f s refl in (i, s, at, id, h)

  -- One statement: each row is written by an event that fits it, or left alone.
  update_from-Pairwise :
      (c : Chooser) (fits : SwapEvent → SingleSwap → Bool)
      (write : SwapEvent → SingleSwap → SingleSwap) (Q : SwapEvent → Type 0)
      → ((e : SwapEvent) (s : SingleSwap) → Q e → fits e s ≡ true → Moves swaps s (write e s))
      → (events : List SwapEvent) (t : List SingleSwap) → All Q events
      → Pairwise (Moves swaps) t (update_from c fits write events t)
  unfolding update_from
  update_from-Pairwise c fits write Q step events [] h = tt
  update_from-Pairwise c fits write Q step events (s ∷ t) h = (
    chosen (filter (λ e. fits e s) events) (
        All-zip (filter (λ e. fits e s) events) (λ e q f. (q, f))
          (All-filter Q (λ e. fits e s) events h) (filter-All (λ e. fits e s) events)),
    update_from-Pairwise c fits write Q step events t h,
  )
    where
      chosen :
          (es : List SwapEvent)
          → All (λ e. Q e × (fits e s ≡ true)) es
          → Moves swaps s (update_by c write es s)
      chosen [] k = Moves-refl swaps s
      chosen (e ∷ es) k =
          let (i, at) = c.choose_one e es in
          let (q, f) =
            All-get_elem? (λ e. Q e × (fits e s ≡ true)) (e ∷ es) i (c.choose e es) k at in
          step (c.choose e es) s q f

  pub Pairwise-trans :
      (r s t : List SingleSwap)
      → Pairwise (Moves swaps) r s
      → Pairwise (Moves swaps) s t
      → Pairwise (Moves swaps) r t
  Pairwise-trans [] [] [] h k = tt
  Pairwise-trans (x ∷ r) (y ∷ s) (z ∷ t) h k =
      (Moves-trans swaps x y z h.0 k.0, Pairwise-trans r s t h.1 k.1)
  Pairwise-trans [] [] (z ∷ t) h k = absurd k
  Pairwise-trans [] (y ∷ s) t h k = absurd h
  Pairwise-trans (x ∷ r) [] t h k = absurd h
  Pairwise-trans (x ∷ r) (y ∷ s) [] h k = absurd k

  Pairwise-map :
      (f : SingleSwap → SingleSwap)
      → ((s : SingleSwap) → Moves swaps s (f s))
      → (t : List SingleSwap) → Pairwise (Moves swaps) t (map f t)
  Pairwise-map f h [] = tt
  Pairwise-map f h (s ∷ t) = (h s, Pairwise-map f h t)

  same_columns : (s : SingleSwap) → IsSameSwap s s
  same_columns s = (refl, refl, refl, refl, refl, refl, refl)

  redeem_of : (x : SwapEventType) → is_redeem x ≡ true → x ≡ redeem (secret_of x)
  redeem_of (redeem secret) h = refl
  redeem_of initiate h = cc
  redeem_of refund h = cc

  pub update_events-Moves :
      (c : Chooser) (events : List SwapEvent) (t : List SingleSwap)
      → All (IsOfCached swaps) events
      → Pairwise (Moves swaps) t (update_events c events t)
  unfolding update_events handle_inits handle_redeems handle_refunds
  update_events-Moves c events t h =
      let of_kind = λ (kind : SwapEvent → Bool).
        All-zip {R = λ e. IsOfCached swaps e × (kind e ≡ true)} (filter kind events)
          (λ e a b. (a, b)) (All-filter (IsOfCached swaps) kind events h)
          (filter-All kind events) in
      let inits = filter (λ e. is_initiate e.event_type) events in
      let redeems = filter (λ e. is_redeem e.event_type) events in
      let refunds = filter (λ e. is_refund e.event_type) events in
      Pairwise-trans t (handle_redeems c redeems (handle_inits c inits t)) _
        (Pairwise-trans t (handle_inits c inits t) _
          (update_from-Pairwise c initiates set_initiated
            (λ e. IsOfCached swaps e × (is_initiate e.event_type ≡ true))
            (λ e s (cached, kind) fits. (
              same_columns s,
              inr (e, cached, kind, fits, refl, refl, refl, refl),
              inl (refl, refl, refl, refl),
              inl (refl, refl, refl),
              inr (inl refl),
            ))
            inits t (of_kind (λ e. is_initiate e.event_type)))
          (update_from-Pairwise c belongs set_redeemed
            (λ e. IsOfCached swaps e × (is_redeem e.event_type ≡ true))
            (λ e s (cached, kind) fits. (
              same_columns s,
              inl (refl, refl, refl, refl),
              inr (e, cached, redeem_of e.event_type kind, fits, refl, refl, refl),
              inl (refl, refl, refl),
              inl refl,
            ))
            redeems (handle_inits c inits t) (of_kind (λ e. is_redeem e.event_type))))
        (update_from-Pairwise c belongs set_refunded
          (λ e. IsOfCached swaps e × (is_refund e.event_type ≡ true))
          (λ e s (cached, kind) fits. (
            same_columns s,
            inl (refl, refl, refl, refl),
            inl (refl, refl, refl, refl),
            inr (e, cached, kind, fits, refl, refl, refl),
            inl refl,
          ))
          refunds (handle_redeems c redeems (handle_inits c inits t))
          (of_kind (λ e. is_refund e.event_type)))

  confirm-Moves : (conf : ℕ) (ids : List Text) (s : SingleSwap) → Moves swaps s (confirm conf ids s)
  confirm-Moves conf ids s = elim (Bool-cases (contains ids s.swap_id)) [
    | inl named ↦ rw named (
      same_columns s,
      inl (refl, refl, refl, refl),
      inl (refl, refl, refl, refl),
      inl (refl, refl, refl),
      inr (inr (omega arith)),
    )
    | inr other ↦ rw other (Moves-refl swaps s)
  ]

  pub update_confirmations-Moves :
      (m : List (ℕ × List Text)) (t : List SingleSwap)
      → Pairwise (Moves swaps) t (update_confirmations m t)
  unfolding update_confirmations
  update_confirmations-Moves [] t = Pairwise-refl (Moves swaps) (Moves-refl swaps) t
  update_confirmations-Moves ((conf, ids) ∷ m) t =
      Pairwise-trans t (map (confirm conf ids) t) _
        (Pairwise-map (confirm conf ids) (confirm-Moves conf ids) t)
        (update_confirmations-Moves m (map (confirm conf ids) t))
