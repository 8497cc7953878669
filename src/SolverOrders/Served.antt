-- ===== src/SolverOrders/Served.antt =====
-- What solver-orders/src/server/handlers.rs serves of the cache that solver-orders/src/cache.rs keeps.
use mathlib.Core.Option
use uni_pay.Prelude.{
  List, Option, Text, [], ap, filter, lookup, lookup-map_values, none, refl, some, suc, unwrap_or,
  zero, ℕ, ◌∙◌, ◌≡◌,
}
use uni_pay.SolverOrders.{
  CacheSyncer, MatchedOrder, SolverOrdersMap, add_orders, get_pending_orders_by_chain, limit_orders,
  max_solver_orders_per_chain, normalize_solver_id, orders_of, run_round, take,
}
use uni_pay.SolverOrders.Grouped.{add_orders_lem, concerns}
use uni_pay.SolverOrders.Synced.{lookup-process_orders}

take_default :
    (n : ℕ) (o : Option (List MatchedOrder))
    → unwrap_or [] (Option.map (take n) o) ≡ take n (unwrap_or [] o)
take_default zero none = refl
take_default (suc n) none = refl
take_default n (some os) = refl

limited_lem :
    (s : Text) (m : SolverOrdersMap)
    → unwrap_or [] (lookup s (limit_orders m))
      ≡ take max_solver_orders_per_chain (unwrap_or [] (lookup s m))
limited_lem s m =
    ap (unwrap_or []) (lookup-map_values (take max_solver_orders_per_chain) s m)
    ∙ take_default max_solver_orders_per_chain (lookup s m)

served_lem :
    (chain solver : Text) (o : Option SolverOrdersMap)
    → elim (Option.map limit_orders o) [ none ↦ [] | some m ↦ orders_of chain (some solver) m ]
      ≡ take max_solver_orders_per_chain
          (unwrap_or [] (lookup (normalize_solver_id solver chain) (unwrap_or [] o)))
unfolding orders_of
served_lem chain solver none = refl
served_lem chain solver (some m) = limited_lem (normalize_solver_id solver chain) m

-- After a round with an answer of the orderbook, a query for a solver on a chain is served with the first thousand of
-- the pending orders that concern the solver there, in their order, whatever the cache held before.
pub get_pending_orders_by_chain-run_round :
    (polling_interval : ℕ) (jitter : ℕ → ℕ) (orders : List MatchedOrder) (now elapsed : ℕ)
    → (s : CacheSyncer) (chain solver : Text)
    → get_pending_orders_by_chain
        (run_round polling_interval jitter (some orders) now elapsed s).0.cache
        chain
        (some solver)
      ≡ take max_solver_orders_per_chain
          (filter (concerns chain (normalize_solver_id solver chain)) orders)
unfolding get_pending_orders_by_chain run_round
get_pending_orders_by_chain-run_round polling_interval jitter orders now elapsed s chain solver =
    ap (λ o. elim o [ none ↦ [] | some m ↦ orders_of chain (some solver) m ])
      (lookup-process_orders chain orders s.cache)
    ∙ served_lem chain solver (lookup chain (add_orders orders []))
    ∙ ap (take max_solver_orders_per_chain)
        (add_orders_lem chain (normalize_solver_id solver chain) orders [])
