-- ===== src/SolverOrders/Examples.antt =====
-- Two orders between two chains, on which the theorems about the cache apply.
use uni_pay.Prelude.{
  IsUnique, List, String, Text, [], any, codes, contains, filter, list_eq, lookup, nat_eq, none,
  refl, some, ◌∷◌, ◌≡◌,
}
use uni_pay.SolverOrders.{
  CacheSyncer, MatchedOrder, get_all_pending_orders, get_health, get_pending_orders_by_chain,
  max_solver_orders_per_chain, normalize_solver_id, run_round, stale, take,
}
use uni_pay.SolverOrders.Grouped.{concerns}
use uni_pay.SolverOrders.Served.{get_pending_orders_by_chain-run_round}
use uni_pay.SolverOrders.Unseen.{get_all_pending_orders-IsUnique, ids, wanted}

abbrev order : String → String → String → String → String → MatchedOrder
order id source destination redeemer initiator = record {
  create_id = codes id;
  source_chain = codes source;
  destination_chain = codes destination;
  source_swap_chain = codes source;
  source_redeemer = codes redeemer;
  destination_swap_chain = codes destination;
  destination_initiator = codes initiator;
}

abbrev pending_orders : List MatchedOrder
pending_orders =
    order "1" "arb" "bitcoin" "0xAb" "Fc"
    ∷ order "2" "bitcoin" "arb" "Fc" "0xAB"
    ∷ order "3" "arb" "arb" "0xcc" "0xab"
    ∷ []

abbrev syncer : CacheSyncer
syncer = record { cache = (codes "base", []) ∷ []; last_sync = 5; error_count = 2 }

unfoldable synced : CacheSyncer
unfolding run_round
synced = (run_round 100 (λ ms. ms) (some pending_orders) 9 30 syncer).0

served_test :
    ids (get_pending_orders_by_chain synced.cache (codes "arb") (some (codes "0xaB")))
    ≡ codes "1" ∷ codes "2" ∷ []
unfolding get_pending_orders_by_chain synced
served_test = refl

removed_test : lookup (codes "base") synced.cache ≡ none
unfolding synced
removed_test = refl

all_test : ids (get_all_pending_orders synced.cache none) ≡ codes "1" ∷ codes "2" ∷ codes "3" ∷ []
unfolding get_all_pending_orders synced
all_test = refl

health_test : get_health 100 synced.last_sync 310 ≡ stale
unfolding get_health synced
health_test = refl

failed_test :
    run_round 100 (λ ms. ms) none 9 30 syncer
    ≡ (record { cache = (codes "base", []) ∷ []; last_sync = 5; error_count = 3 }, 800)
unfolding run_round
failed_test = refl

get_pending_orders_by_chain-run_round_example :
    get_pending_orders_by_chain
      (run_round 100 (λ ms. ms) (some pending_orders) 9 30 syncer).0.cache
      (codes "arb")
      (some (codes "0xaB"))
    ≡ take max_solver_orders_per_chain (
        filter
          (concerns (codes "arb") (normalize_solver_id (codes "0xaB") (codes "arb")))
          pending_orders)
get_pending_orders_by_chain-run_round_example =
    get_pending_orders_by_chain-run_round 100 (λ ms. ms) pending_orders 9 30 syncer (codes "arb")
      (codes "0xaB")

get_all_pending_orders-IsUnique_example :
    IsUnique (ids (get_all_pending_orders synced.cache (some (codes "0xaB"))))
    × ((id : Text)
        → contains (ids (get_all_pending_orders synced.cache (some (codes "0xaB")))) id
          ≡ any (λ e. contains (ids (wanted (some (codes "0xaB")) e)) id) synced.cache)
get_all_pending_orders-IsUnique_example =
    get_all_pending_orders-IsUnique synced.cache (some (codes "0xaB"))
