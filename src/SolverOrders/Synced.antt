-- ===== src/SolverOrders/Synced.antt =====
-- What solver-orders/src/cache.rs leaves in the cache: what a round writes, whatever was there.
use mathlib.Core.Option
use uni_pay.Policy.Collections.{or_else}
use uni_pay.Prelude.{
  Bool, Bool-cases, List, Option, Text, [], and_false, ap, contains, contains-keys, eq_of_beq,
  filter, if◌then◌else◌, inl, inr, is_some, keys, keys-map_values, list_eq, lookup,
  lookup-insert_key, lookup-map_values, lookup-remove_key, map_values, nat_eq, none, not, or_false,
  or_true, refl, remove_key, some, sym, ◌&&◌, ◌==◌, ◌∙◌, ◌∷◌, ◌≡◌,
}
use uni_pay.SolverOrders.{
  MatchedOrder, OrdersCache, SolverOrdersMap, add_orders, insert_each, limit_orders, process_orders,
  remove_each,
}

contains-filter :
    (p : Text → Bool) (ks : List Text) (k : Text)
    → contains (filter p ks) k ≡ (p k && contains ks k)
contains-filter p [] k = sym (and_false (p k))
contains-filter p (j ∷ ks) k = elim (Bool-cases (j == k)) [
  | inl same ↦
      let eq : p j ≡ p k = ap p (eq_of_beq j k same) in
      elim (Bool-cases (p k)) [
        | inl hit ↦ rw (eq, hit, same) refl
        | inr miss ↦ rw (eq, miss) (contains-filter p ks k ∙ ap (λ b. b && contains ks k) miss)
      ]
  | inr other ↦ elim (Bool-cases (p j)) [
    | inl stays ↦ rw (stays, other) (contains-filter p ks k)
    | inr goes ↦ rw (goes, other) (contains-filter p ks k)
  ]
]

lookup-insert_each :
    (k : Text) (c cache : OrdersCache)
    → lookup k (insert_each c cache) ≡ or_else (lookup k c) (lookup k cache)
lookup-insert_each k [] cache = refl
lookup-insert_each k ((j, m) ∷ c) cache =
    lookup-insert_key j k m (insert_each c cache) ∙ elim (Bool-cases (j == k)) [
      | inl hit ↦ rw hit refl
      | inr miss ↦ rw miss (lookup-insert_each k c cache)
    ]

lookup-remove_each :
    (k : Text) (ks : List Text) (cache : OrdersCache)
    → lookup k (remove_each ks cache) ≡ (if contains ks k then none else lookup k cache)
lookup-remove_each k [] cache = refl
lookup-remove_each k (j ∷ ks) cache =
    lookup-remove_each k ks (remove_key j cache) ∙ elim (Bool-cases (contains ks k)) [
      | inl later ↦ rw (later, or_true (j == k)) refl
      | inr never ↦ rw (never, or_false (j == k)) (lookup-remove_key j k cache)
    ]

-- The entry of a key that is kept if it is new, and else removed if it was there.
settled :
    (o o' : Option SolverOrdersMap)
    → (if not (is_some o) && is_some o' then none else or_else o o') ≡ o
settled none none = refl
settled none (some m) = refl
settled (some m) none = refl
settled (some m) (some m') = refl

pub lookup-process_orders :
    (k : Text) (orders : List MatchedOrder) (cache : OrdersCache)
    → lookup k (process_orders orders cache)
      ≡ Option.map limit_orders (lookup k (add_orders orders []))
unfolding process_orders
lookup-process_orders k orders cache =
    let groups = add_orders orders [] in
    let fresh = map_values limit_orders groups in
    let stale_keys = filter (λ j. not (contains (keys groups) j)) (keys cache) in
    let found : is_some (lookup k fresh) ≡ contains (keys groups) k =
      sym (contains-keys k fresh)
      ∙ ap (λ ks. contains ks k) (keys-map_values limit_orders groups) in
    lookup-remove_each k stale_keys (insert_each fresh cache)
    ∙ ap (λ b. if b then none else lookup k (insert_each fresh cache))
        (contains-filter (λ j. not (contains (keys groups) j)) (keys cache) k
          ∙ ap (λ b. not b && contains (keys cache) k) (sym found)
          ∙ ap (λ b. not (is_some (lookup k fresh)) && b) (contains-keys k cache))
    ∙ ap (λ o. if not (is_some (lookup k fresh)) && is_some (lookup k cache) then none else o)
        (lookup-insert_each k fresh cache)
    ∙ settled (lookup k fresh) (lookup k cache)
    ∙ lookup-map_values limit_orders k groups
