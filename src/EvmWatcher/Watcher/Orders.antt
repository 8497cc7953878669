-- ===== src/EvmWatcher/Watcher/Orders.antt =====
-- Which order the watcher of evm-watcher/src/watcher/watcher.rs takes for which swap.
use mathlib.Core.Path.{subst}
use mathlib.Core.Option
use uni_pay.EvmWatcher.Events.{WatchError}
use uni_pay.EvmWatcher.Swaps.{OnChainOrder, SingleSwap, is_empty_order}
use uni_pay.EvmWatcher.Watcher.{
  Chain, OnchainRequest, fetch_onchain_orders, onchain_request, order_entry, zip,
}
use uni_pay.Prelude.{
  All, Bool-cases, List, Option, Result, Text, [], ap, false, filter_map, get_elem?, hash_map,
  hash_map-All, if◌then◌else◌, inl, inr, is_empty, is_some, map, none, ok, ok_injective, refl, some,
  suc, sym, true, ℕ, ◌>>=◌, ◌∙◌, ◌∷◌, ◌≡◌,
}

module _ {A B : Type 0} (f : A → Option B) (x : A) (xs : List A) where
  filter_map-none : f x ≡ none → filter_map f (x ∷ xs) ≡ filter_map f xs
  filter_map-none e =
      ap (λ o. elim o as (λ _. List B) [ none ↦ filter_map f xs | some b ↦ b ∷ filter_map f xs ]) e

  filter_map-some : {b : B} → f x ≡ some b → filter_map f (x ∷ xs) ≡ b ∷ filter_map f xs
  filter_map-some e =
      ap (λ o. elim o as (λ _. List B) [ none ↦ filter_map f xs | some b ↦ b ∷ filter_map f xs ]) e

own_entry :
    (o : OnChainOrder) (s : SingleSwap)
    → is_empty_order o ≡ false
    → order_entry (some o, s) ≡ some (s.swap_id, o)
own_entry o s n = ap (λ b. if b then none else some (s.swap_id, o)) n

no_entry :
    (o : OnChainOrder) (s : SingleSwap) → is_empty_order o ≡ true → order_entry (some o, s) ≡ none
no_entry o s n = ap (λ b. if b then none else some (s.swap_id, o)) n

request_of :
    (parse : Text → Option ℕ) (s : SingleSwap) (p : Option ℕ)
    → parse s.asset ≡ p
    → onchain_request parse s ≡ Option.map (λ a. record { swap_id = s.swap_id; contract = a }) p
request_of parse s p e = ap (Option.map (λ a. record { swap_id = s.swap_id; contract = a })) e

-- A provider that answers each request by itself.
abbrev pub IsPointwise : Chain → (OnchainRequest → Option OnChainOrder) → Type 0
IsPointwise c answer = (rs : List OnchainRequest) → c.get_orders rs ≡ ok (map answer rs)

-- The entry is the order of a swap of the list, under that swap's id, and it is not empty.
abbrev pub IsOwnOrder :
    Chain → (OnchainRequest → Option OnChainOrder) → List SingleSwap → Text × OnChainOrder → Type 0
IsOwnOrder c answer swaps (id, o) =
    (i : ℕ) × (s : SingleSwap) × (r : OnchainRequest) × (get_elem? swaps i ≡ some s)
    × (s.swap_id ≡ id)
    × (onchain_request c.parse_address s ≡ some r)
    × (answer r ≡ some o)
    × (is_empty_order o ≡ false)

module _ (c : Chain) (answer : OnchainRequest → Option OnChainOrder) where
  shifted :
      (s : SingleSwap) (swaps : List SingleSwap) (m : List (Text × OnChainOrder))
      → All (IsOwnOrder c answer swaps) m
      → All (IsOwnOrder c answer (s ∷ swaps)) m
  shifted s swaps [] h = tt
  shifted s swaps (e ∷ m) h =
      let (i, x, r, at, id, q, a, n) = h.0 in
      ((suc i, x, r, at, id, q, a, n), shifted s swaps m h.1)

  entries-IsOwnOrder :
      (swaps : List SingleSwap)
      → All (λ s. is_some (c.parse_address s.asset) ≡ true) swaps
      → All (IsOwnOrder c answer swaps) (
          filter_map order_entry
            (zip (map answer (filter_map (onchain_request c.parse_address) swaps)) swaps))
  entries-IsOwnOrder [] h = tt
  entries-IsOwnOrder (s ∷ swaps) h =
      parsed (c.parse_address s.asset) refl h.0 (shifted s swaps _ (entries-IsOwnOrder swaps h.1))
    where
      rest : List (Option OnChainOrder × SingleSwap)
      rest = zip (map answer (filter_map (onchain_request c.parse_address) swaps)) swaps

      answered :
          (r : OnchainRequest) (o : Option OnChainOrder)
          → onchain_request c.parse_address s ≡ some r
          → answer r ≡ o
          → All (IsOwnOrder c answer (s ∷ swaps)) (filter_map order_entry rest)
          → All (IsOwnOrder c answer (s ∷ swaps)) (filter_map order_entry ((o, s) ∷ rest))
      answered r none q a k = k
      answered r (some o) q a k = elim (Bool-cases (is_empty_order o)) [
        | inl void ↦
            subst (All (IsOwnOrder c answer (s ∷ swaps)))
              (sym (filter_map-none order_entry (some o, s) rest (no_entry o s void))) k
        | inr full ↦
            subst (All (IsOwnOrder c answer (s ∷ swaps)))
              (sym (filter_map-some order_entry (some o, s) rest (own_entry o s full)))
              ((0, s, r, refl, refl, q, a, full), k)
      ]

      parsed :
          (p : Option ℕ)
          → c.parse_address s.asset ≡ p
          → is_some p ≡ true
          → All (IsOwnOrder c answer (s ∷ swaps)) (filter_map order_entry rest)
          → All (IsOwnOrder c answer (s ∷ swaps)) (
              filter_map order_entry (
                zip
                  (map answer (filter_map (onchain_request c.parse_address) (s ∷ swaps)))
                  (s ∷ swaps)))
      parsed none e h k = cc
      parsed (some a) e h k =
          let r : OnchainRequest = record { swap_id = s.swap_id; contract = a } in
          let request = request_of c.parse_address s (some a) e in
          subst
            (λ rs.
              All (IsOwnOrder c answer (s ∷ swaps))
                (filter_map order_entry (zip (map answer rs) (s ∷ swaps))))
            (sym (filter_map-some (onchain_request c.parse_address) s swaps request))
            (answered r (answer r) request refl k)

  -- With a provider that answers each request by itself, and if the asset of every swap is an address, every order
  -- that is fetched stands under the id of its own swap, and it is not empty.
  pub fetch_onchain_orders-IsOwnOrder :
      (swaps : List SingleSwap) (m : List (Text × OnChainOrder))
      → IsPointwise c answer
      → All (λ s. is_some (c.parse_address s.asset) ≡ true) swaps
      → fetch_onchain_orders c swaps ≡ ok m
      → All (IsOwnOrder c answer swaps) m
  unfolding fetch_onchain_orders
  fetch_onchain_orders-IsOwnOrder swaps m pointwise h e =
      let requests = filter_map (onchain_request c.parse_address) swaps in
      elim (Bool-cases (is_empty requests)) [
        | inl idle ↦
            let same : [] ≡ m =
              ok_injective
                (ap (λ b. if b then ok [] else fetched (c.get_orders requests)) (sym idle) ∙ e) refl
                refl in
            subst (All (IsOwnOrder c answer swaps)) same tt
        | inr busy ↦
            let asked : fetched (c.get_orders requests) ≡ ok m =
              ap (λ b. if b then ok [] else fetched (c.get_orders requests)) (sym busy) ∙ e in
            subst (All (IsOwnOrder c answer swaps))
              (ok_injective (ap fetched (sym (pointwise requests)) ∙ asked) refl refl)
              (hash_map-All (IsOwnOrder c answer swaps) _ (entries-IsOwnOrder swaps h))
      ]
    where
      fetched :
          Result WatchError (List (Option OnChainOrder))
          → Result WatchError (List (Text × OnChainOrder))
      fetched r = r >>= λ orders. ok (hash_map (filter_map order_entry (zip orders swaps)))

-- If the asset of a swap is no address and that of the next is one, the order of the second is taken for the first,
-- and the second has none.
pub fetch_onchain_orders-misaligned :
    (c : Chain) (bad good : SingleSwap) (a : ℕ) (o : OnChainOrder)
    → c.parse_address bad.asset ≡ none
    → c.parse_address good.asset ≡ some a
    → c.get_orders (record { swap_id = good.swap_id; contract = a } ∷ []) ≡ ok (some o ∷ [])
    → is_empty_order o ≡ false
    → fetch_onchain_orders c (bad ∷ good ∷ []) ≡ ok ((bad.swap_id, o) ∷ [])
unfolding fetch_onchain_orders hash_map
fetch_onchain_orders-misaligned c bad good a o p q g n =
    let swaps = bad ∷ good ∷ [] in
    let request : OnchainRequest = record { swap_id = good.swap_id; contract = a } in
    let requests : filter_map (onchain_request c.parse_address) swaps ≡ request ∷ [] =
      filter_map-none (onchain_request c.parse_address) bad (good ∷ [])
        (request_of c.parse_address bad none p)
      ∙ filter_map-some (onchain_request c.parse_address) good []
          (request_of c.parse_address good (some a) q) in
    let fetched = λ (r : Result WatchError (List (Option OnChainOrder))).
      r >>= λ orders. ok (hash_map (filter_map order_entry (zip orders swaps))) in
    ap (λ rs. if is_empty rs then ok [] else fetched (c.get_orders rs)) requests
    ∙ ap fetched g
    ∙ ap (λ es. ok (hash_map es)) (filter_map-some order_entry (some o, bad) [] (own_entry o bad n))
