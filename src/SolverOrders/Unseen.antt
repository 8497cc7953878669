-- ===== src/SolverOrders/Unseen.antt =====
-- That solver-orders/src/server/handlers.rs serves each order once when it is asked for all chains.
use uni_pay.Prelude.{
  Bool-cases, IsUnique, List, Option, Text, [], and_false, any, ap, beq_refl, contains,
  contains-append, entry, eq_of_beq, false, flat_map, inl, inr, list_eq, lookup, map, map-append,
  nat_eq, none, not, refl, some, sym, true, unwrap_or, ◌&&◌, ◌==◌, ◌||◌, ◌∙◌, ◌∷◌, ◌≡◌,
}
use uni_pay.SolverOrders.{
  MatchedOrder, OrdersCache, SolverOrdersMap, get_all_pending_orders, normalize_solver_id,
  orders_of, push_unseen,
}

abbrev pub ids : List MatchedOrder → List Text
ids os = map (λ o. o.create_id) os

contains-push_unseen :
    (seen : List Text) (os : List MatchedOrder) (id : Text)
    → contains (ids (push_unseen seen os)) id ≡ (not (contains seen id) && contains (ids os) id)
unfolding push_unseen
contains-push_unseen seen [] id = sym (and_false (not (contains seen id)))
contains-push_unseen seen (o ∷ os) id = elim (Bool-cases (contains seen o.create_id)) [
  | inl old ↦ elim (Bool-cases (o.create_id == id)) [
    | inl same ↦
        let at : contains seen id ≡ true =
          ap (contains seen) (sym (eq_of_beq o.create_id id same)) ∙ old in
        rw old (
          contains-push_unseen seen os id
          ∙ ap (λ b. not b && contains (ids os) id) at
          ∙ ap (λ b. not b && (o.create_id == id || contains (ids os) id)) (sym at))
    | inr other ↦ rw (old, other) (contains-push_unseen seen os id)
  ]
  | inr unseen ↦ elim (Bool-cases (o.create_id == id)) [
    | inl same ↦
        let at : contains seen id ≡ false =
          ap (contains seen) (sym (eq_of_beq o.create_id id same)) ∙ unseen in
        rw (unseen, same, at) refl
    | inr other ↦
        rw (unseen, other)
          (contains-push_unseen (o.create_id ∷ seen) os id
            ∙ ap (λ b. not (b || contains seen id) && contains (ids os) id) other)
  ]
]

push_unseen-IsUnique :
    (seen : List Text) (os : List MatchedOrder) → IsUnique (ids (push_unseen seen os))
unfolding push_unseen
push_unseen-IsUnique seen [] = tt
push_unseen-IsUnique seen (o ∷ os) = elim (Bool-cases (contains seen o.create_id)) [
  | inl old ↦ rw old (push_unseen-IsUnique seen os)
  | inr unseen ↦ rw unseen (
    contains-push_unseen (o.create_id ∷ seen) os o.create_id
        ∙ ap (λ b. not (b || contains seen o.create_id) && contains (ids os) o.create_id)
            (beq_refl o.create_id),
    push_unseen-IsUnique (o.create_id ∷ seen) os,
  )
]

contains-flat_map :
    (visit : Text × SolverOrdersMap → List MatchedOrder) (cache : OrdersCache) (id : Text)
    → contains (ids (flat_map visit cache)) id ≡ any (λ e. contains (ids (visit e)) id) cache
contains-flat_map visit [] id = refl
contains-flat_map visit (e ∷ cache) id =
    ap (λ l. contains l id) (map-append (λ o. o.create_id) (visit e) (flat_map visit cache))
    ∙ contains-append (ids (visit e)) (ids (flat_map visit cache)) id
    ∙ ap (λ b. contains (ids (visit e)) id || b) (contains-flat_map visit cache id)

-- The orders of an entry that a query is for: those listed under the solver's normalized id, or those of every
-- solver.
abbrev pub wanted : Option Text → Text × SolverOrdersMap → List MatchedOrder
wanted none entry = flat_map (λ e. e.1) entry.1
wanted (some solver) entry = unwrap_or [] (lookup (normalize_solver_id solver entry.0) entry.1)

wanted_lem :
    (solver : Option Text) (id : Text) (cache : OrdersCache)
    → any (λ e. contains (ids (orders_of e.0 solver e.1)) id) cache
      ≡ any (λ e. contains (ids (wanted solver e)) id) cache
unfolding orders_of
wanted_lem none id cache = refl
wanted_lem (some solver) id cache = refl

-- A query for all chains serves no two orders of one id; and an id is served exactly if some chain's entry lists an order
-- of that id under the solver's id, normalized for that chain, or under any solver if the query names none.
pub get_all_pending_orders-IsUnique :
    (cache : OrdersCache) (solver : Option Text)
    → IsUnique (ids (get_all_pending_orders cache solver))
      × ((id : Text)
          → contains (ids (get_all_pending_orders cache solver)) id
            ≡ any (λ e. contains (ids (wanted solver e)) id) cache)
unfolding get_all_pending_orders
get_all_pending_orders-IsUnique cache solver =
    let visited = flat_map (λ e. orders_of e.0 solver e.1) cache in
    (
      push_unseen-IsUnique [] visited,
      λ id.
          contains-push_unseen [] visited id
          ∙ contains-flat_map (λ e. orders_of e.0 solver e.1) cache id
          ∙ wanted_lem solver id cache,
    )
