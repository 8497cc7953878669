-- ===== src/SolverOrders.antt =====
-- The cache of pending orders that solver-orders serves: solver-orders/src/{cache,server/handlers}.rs. The cache
-- and its maps are association lists; its entries expire only when they are removed. Texts are ASCII.
pub mod Grouped
pub mod Synced
pub mod Served
pub mod Unseen
mod Examples
use uni_pay.Prelude.{
  Bool, List, Option, Text, [], codes, contains, entry, filter, flat_map, if◌then◌else◌, insert_key,
  is_some, keys, list_eq, lookup, ltb, map_values, min, nat_eq, none, not, remove_key, some,
  strip_prefix, suc, to_lowercase, unwrap_or, zero, ℕ, ◌%◌, ◌*◌, ◌++◌, ◌+◌, ◌-◌, ◌==◌, ◌^◌, ◌||◌,
  ◌∷◌,
}
use uni_pay.Wallet.Planner.{u64_mod}

-- The columns of `MatchedOrderVerbose` that the service reads.
pub record MatchedOrder : Type 0 where
  pub create_id : Text
  pub source_chain : Text
  pub destination_chain : Text
  pub source_swap_chain : Text
  pub source_redeemer : Text
  pub destination_swap_chain : Text
  pub destination_initiator : Text

abbrev pub SolverOrdersMap : Type 0
SolverOrdersMap = List (Text × List MatchedOrder)

abbrev pub OrdersCache : Type 0
OrdersCache = List (Text × SolverOrdersMap)

-- `str::contains`
unfoldable pub contains_text : Text → Text → Bool
unfolding strip_prefix
contains_text pattern [] = is_some (strip_prefix pattern [])
contains_text pattern (c ∷ s) = is_some (strip_prefix pattern (c ∷ s)) || contains_text pattern s

unfoldable pub normalize_solver_id : Text → Text → Text
unfolding contains_text to_lowercase
normalize_solver_id addr chain =
    if contains_text (codes "bitcoin") chain || contains_text (codes "solana") chain
    then addr
    else to_lowercase addr

abbrev pub source_solver : MatchedOrder → Text
source_solver o = normalize_solver_id o.source_redeemer o.source_swap_chain

abbrev pub destination_solver : MatchedOrder → Text
destination_solver o = normalize_solver_id o.destination_initiator o.destination_swap_chain

-- `entry(solver).or_default().push(order)`
abbrev pub push_for : Text → MatchedOrder → SolverOrdersMap → SolverOrdersMap
push_for solver o m = entry solver [] (λ os. os ++ o ∷ []) m

-- `entry(chain).or_default().entry(solver).or_default().push(order)`
abbrev pub push_order : Text → Text → MatchedOrder → OrdersCache → OrdersCache
push_order chain solver o c = entry chain [] (push_for solver o) c

-- An order is listed for the solver of its source, and for that of its destination if this is another chain.
unfoldable pub add_order : MatchedOrder → OrdersCache → OrdersCache
unfolding normalize_solver_id
add_order o c =
    let c' = push_order o.source_chain (source_solver o) o c in
    if o.source_chain == o.destination_chain
    then c'
    else push_order o.destination_chain (destination_solver o) o c'

unfoldable pub add_orders : List MatchedOrder → OrdersCache → OrdersCache
unfolding add_order
add_orders [] c = c
add_orders (o ∷ os) c = add_orders os (add_order o c)

abbrev pub max_solver_orders_per_chain : ℕ
max_solver_orders_per_chain = 1000

abbrev pub take {ℓ} : {A : Type ℓ} → ℕ → List A → List A
take zero xs = []
take (suc n) [] = []
take (suc n) (x ∷ xs) = x ∷ take n xs

abbrev pub limit_orders : SolverOrdersMap → SolverOrdersMap
limit_orders m = map_values (take max_solver_orders_per_chain) m

-- The keys of the new entries differ, so that the order in which they are inserted does not matter.
abbrev pub insert_each : OrdersCache → OrdersCache → OrdersCache
insert_each [] cache = cache
insert_each ((k, m) ∷ c) cache = insert_key k m (insert_each c cache)

abbrev pub remove_each : List Text → OrdersCache → OrdersCache
remove_each [] cache = cache
remove_each (k ∷ ks) cache = remove_each ks (remove_key k cache)

-- `process_orders`: new entries replace old ones, and entries of chains without orders are removed.
unfoldable pub process_orders : List MatchedOrder → OrdersCache → OrdersCache
unfolding add_orders
process_orders orders cache =
    let groups = add_orders orders [] in
    let stale_keys = filter (λ k. not (contains (keys groups) k)) (keys cache) in
    remove_each stale_keys (insert_each (map_values limit_orders groups) cache)

-- `get_pending_orders_by_chain`
abbrev pub all_orders : SolverOrdersMap → List MatchedOrder
all_orders m = flat_map (λ e. e.1) m

unfoldable pub orders_of : Text → Option Text → SolverOrdersMap → List MatchedOrder
unfolding normalize_solver_id
orders_of chain none m = all_orders m
orders_of chain (some solver) m = unwrap_or [] (lookup (normalize_solver_id solver chain) m)

unfoldable pub get_pending_orders_by_chain : OrdersCache → Text → Option Text → List MatchedOrder
unfolding orders_of
get_pending_orders_by_chain cache chain solver = elim (lookup chain cache) [
  | none ↦ []
  | some m ↦ orders_of chain solver m
]

-- The orders whose id was not seen yet, with what was seen then.
unfoldable pub push_unseen : List Text → List MatchedOrder → List MatchedOrder
push_unseen seen_ids [] = []
push_unseen seen_ids (o ∷ os) =
    let others = push_unseen (o.create_id ∷ seen_ids) os in
    let same = push_unseen seen_ids os in if contains seen_ids o.create_id then same else o ∷ others

-- `get_all_pending_orders`: the loops over the chains, their solvers and the orders visit one list.
unfoldable pub get_all_pending_orders : OrdersCache → Option Text → List MatchedOrder
unfolding orders_of push_unseen
get_all_pending_orders cache solver =
    push_unseen [] (flat_map (λ e. orders_of e.0 solver e.1) cache)

pub data Health : Type 0 where
  starting : Health
  stale : Health
  online : Health

-- `get_health`, at a time in milliseconds.
unfoldable pub get_health : ℕ → ℕ → ℕ → Health
get_health polling_interval_ms synced now =
    if synced == 0
    then starting
    else if ltb (min (polling_interval_ms * 3) (u64_mod - 1)) (now - synced)
    then stale
    else online

pub record CacheSyncer : Type 0 where
  pub cache : OrdersCache
  pub last_sync : ℕ
  pub error_count : ℕ

-- `calculate_backoff`, with the random factor that is applied to it.
unfoldable pub calculate_backoff : ℕ → (ℕ → ℕ) → ℕ → ℕ
calculate_backoff polling_interval jitter error_count =
    jitter (min (polling_interval * 2 ^ min error_count 6 % u64_mod) 5000)

-- One round of `run`, for the answer of the orderbook, the clock and the time that the round took; with the time
-- that it then sleeps. The answer is an error in `none`.
unfoldable pub run_round :
    ℕ → (ℕ → ℕ) → Option (List MatchedOrder) → ℕ → ℕ → CacheSyncer → CacheSyncer × ℕ
unfolding process_orders calculate_backoff
run_round polling_interval jitter none now elapsed s = (
  record s { error_count = s.error_count + 1 },
  calculate_backoff polling_interval jitter (s.error_count + 1),
)
run_round polling_interval jitter (some orders) now elapsed s = (
  record { cache = process_orders orders s.cache; last_sync = now; error_count = 0 },
  (if ltb elapsed polling_interval then polling_interval - elapsed else 10),
)
