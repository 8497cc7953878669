-- ===== src/SolverOrders/Grouped.antt =====
-- How solver-orders/src/cache.rs groups the pending orders by chain and solver.
use uni_pay.Prelude.{
  Bool, Bool-cases, List, Text, [], ap, append-nil, append_assoc, arith, beq_comm, eq_of_beq, false,
  filter, if◌then◌else◌, inl, inr, list_eq, lookup, lookup-entry, nat_eq, not, or_false, refl, sym,
  true, unwrap_or, ◌&&◌, ◌++◌, ◌==◌, ◌||◌, ◌∙◌, ◌∷◌, ◌≡◌,
}
use uni_pay.SolverOrders.{
  MatchedOrder, OrdersCache, SolverOrdersMap, add_order, add_orders, destination_solver, push_for,
  push_order, source_solver,
}

-- The orders of a chain and a solver in a cache.
abbrev pub listed : Text → Text → OrdersCache → List MatchedOrder
listed chain solver c = unwrap_or [] (lookup solver (unwrap_or [] (lookup chain c)))

-- The order concerns the solver on the chain.
abbrev pub concerns : Text → Text → MatchedOrder → Bool
concerns chain solver o =
    (o.source_chain == chain && source_solver o == solver)
    || (not (o.source_chain == o.destination_chain)
        && (o.destination_chain == chain && destination_solver o == solver))

abbrev one_if : Bool → MatchedOrder → List MatchedOrder
one_if b o = if b then o ∷ [] else []

push_for_lem :
    (solver s : Text) (o : MatchedOrder) (m : SolverOrdersMap)
    → unwrap_or [] (lookup s (push_for solver o m))
      ≡ unwrap_or [] (lookup s m) ++ one_if (solver == s) o
push_for_lem solver s o m =
    ap (unwrap_or []) (lookup-entry solver s [] (λ os. os ++ o ∷ []) m)
    ∙ elim (Bool-cases (solver == s)) [
      | inl hit ↦ rw hit refl
      | inr miss ↦ rw miss (sym (append-nil (unwrap_or [] (lookup s m))))
    ]

push_order_lem :
    (chain solver c s : Text) (o : MatchedOrder) (m : OrdersCache)
    → listed c s (push_order chain solver o m)
      ≡ listed c s m ++ one_if (chain == c && solver == s) o
push_order_lem chain solver c s o m =
    ap (λ t. unwrap_or [] (lookup s (unwrap_or [] t)))
      (lookup-entry chain c [] (push_for solver o) m)
    ∙ elim (Bool-cases (chain == c)) [
      | inl hit ↦ rw hit (push_for_lem solver s o (unwrap_or [] (lookup c m)))
      | inr miss ↦ rw miss (sym (append-nil (listed c s m)))
    ]

one_if_or :
    (l : List MatchedOrder) (a b : Bool) (o : MatchedOrder)
    → (a ≡ true → b ≡ false)
    → (l ++ one_if a o) ++ one_if b o ≡ l ++ one_if (a || b) o
one_if_or l true b o h = rw (h refl) (append-nil (l ++ o ∷ []))
one_if_or l false b o h = ap (λ t. t ++ one_if b o) (append-nil l)

-- The two chains of an order differ, so that it is listed once for a chain.
other_chain :
    (source destination c : Text) (a b : Bool)
    → (source == destination) ≡ false
    → (source == c && a) ≡ true
    → (destination == c && b) ≡ false
other_chain source destination c a b apart h =
    let at : source ≡ c = eq_of_beq source c (ground arith) in
    let miss : (destination == c) ≡ false =
      ap (λ t. destination == t) (sym at) ∙ beq_comm destination source ∙ apart in
    rw miss refl

add_order_lem :
    (c s : Text) (o : MatchedOrder) (m : OrdersCache)
    → listed c s (add_order o m) ≡ listed c s m ++ one_if (concerns c s o) o
unfolding add_order
add_order_lem c s o m = elim (Bool-cases (o.source_chain == o.destination_chain)) [
  | inl same ↦ rw same (
      push_order_lem o.source_chain (source_solver o) c s o m
      ∙ ap (λ b. listed c s m ++ one_if b o) (sym (or_false _)))
  | inr apart ↦ rw apart (
      push_order_lem o.destination_chain (destination_solver o) c s o
        (push_order o.source_chain (source_solver o) o m)
      ∙ ap (λ l. l ++ one_if (o.destination_chain == c && destination_solver o == s) o)
          (push_order_lem o.source_chain (source_solver o) c s o m)
      ∙ one_if_or (listed c s m) _ _ o (other_chain o.source_chain o.destination_chain c _ _ apart))
]

pub add_orders_lem :
    (c s : Text) (os : List MatchedOrder) (m : OrdersCache)
    → listed c s (add_orders os m) ≡ listed c s m ++ filter (concerns c s) os
unfolding add_orders
add_orders_lem c s [] m = sym (append-nil (listed c s m))
add_orders_lem c s (o ∷ os) m =
    add_orders_lem c s os (add_order o m)
    ∙ ap (λ l. l ++ filter (concerns c s) os) (add_order_lem c s o m)
    ∙ elim (Bool-cases (concerns c s o)) [
      | inl hit ↦ rw hit (append_assoc (listed c s m) (o ∷ []) (filter (concerns c s) os))
      | inr miss ↦ rw miss (ap (λ l. l ++ filter (concerns c s) os) (append-nil (listed c s m)))
    ]
