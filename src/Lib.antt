-- ===== src/Lib.antt =====
-- uniPay: the Bitcoin wallet of btc-executor, and the order checks, policies and watchers that surround it.
--
-- The wallet takes send and spend requests, keeps them in a table, batches them into transactions
-- and follows each transaction and its replacements (a lineage) until it is confirmed. Its parts and
-- the files that model them:
--
--   * btc-executor/src/infrastructure/chain/bitcoin/wallet/{request,state,store,config}.rs: the data that
--     the parts exchange, in Wallet/Types and Wallet/Request.
--   * .../wallet/planner.rs: `plan_wallet_batches` chooses which pending requests go into which batch, in
--     Wallet/Planner and below. The cost model is a record of functions, as the trait is.
--   * .../wallet/runtime.rs: the in-memory state machine. The pending buckets and `tick` are in
--     Wallet/Runtime; the observation of live lineages in Wallet/Runtime/Observe; the recovery at
--     startup in Wallet/Runtime/Recover; `persist_and_submit_broadcast` in Store/Submit.
--   * btc-executor/src/infrastructure/persistence/bitcoin_wallet.rs: the durable store. Its rows and
--     statements are in Store/Rows, the plans and their validation in Store/Plans, the methods in
--     Store/Operations, and `restore` in Store/Restore.
--   * .../wallet/confirm.rs: what the wallet does with the requests of a confirmed transaction, in
--     Wallet/Confirm; .../wallet/reconcile.rs: what it does when the node holds another transaction of
--     the lineage than the wallet expects, in Wallet/Reconcile.
--   * btc-executor/src/infrastructure/chain/bitcoin/tx_builder/{cover_utxo,fee_builder,primitives,validation,
--     deps}.rs: the choice of the coins that pay for a transaction and of its fee, in TxBuilder and below.
--     The planner above decides the requests; the builder decides the inputs and the change.
--
-- Beside the wallet stand smaller parts:
--
--   * evm-watcher/src/{primitives,block_range,prepare_event,validate_event,validate_swap}.rs, .../swaps/{primitives,
--     store}.rs, .../onchain_orders/primitives.rs and .../watcher/watcher.rs: the watcher of an EVM chain. It fetches the
--     orders of its pending swaps, asks for the logs of the blocks in which they changed, turns the logs into
--     events, keeps those that fit a swap, and writes them into the table of swaps. The ranges of blocks are in
--     EvmWatcher/BlockRange, the data in EvmWatcher/Swaps, the events in EvmWatcher/Events, the statements on the
--     table in EvmWatcher/Store, and a round of the watcher in EvmWatcher/Watcher. The provider, the clock and
--     the cache are functions; which of several matching events an UPDATE takes is a parameter.
--   * Tars-rs/crates/primitives/src/primitives.rs and Tars-rs/crates/policy/src/{common,collections,solver_policy,
--     policy}.rs: which pairs of assets a solver trades and for which fee. Parsers and printers are in
--     Policy/Assets, the rule tables in Policy/Collections, the policies in Policy/SolverPolicy and their
--     checks and answers in Policy/SolverPolicy/Checks; the tables that a configuration builds are compared
--     with its texts in the files below Policy/SolverPolicy. A text is a list of code points there and in
--     EvmWatcher; the binary search of the standard library is a parameter with its documented contract; a
--     hash map is an association list.
--   * solver-orders/src/{cache,main}.rs and .../server/handlers.rs: the cache of pending orders by chain and solver, the
--     rounds that fill it, and the queries that it serves, in SolverOrders. The cache is an association list
--     whose entries do not expire; the clock and the random factor of the backoff are parameters.
--   * Tars-rs/crates/orderbook/src/order_mapper.rs: the action that an executor takes on a matched order,
--     in Orderbook. The clock, the prices and the decoder of secrets are parameters.
--
-- A function keeps its name. State is passed on explicitly: the runtime's record, and the table as a list
-- of rows; a method of the store is a transaction, so it returns a new table or an error. An error is a
-- value of `Result`, with its variant and without its message. Asynchronous traits (the observer, the
-- broadcaster) are functions. Numbers are natural numbers; where the source computes on `u64` or `u32`
-- the wrap-around or the saturation is written out. Lists are walked by structural recursion; the
-- fee loop of the builder is recursion on the 16 rounds that the source allows, and its error when they are
-- used up is a result of the model. No other definition has fuel.
--
-- Conservation of requests is stated with weights: for every function from requests to numbers, the sums
-- over two collections are equal. With the function that is 1 on one request and 0 elsewhere this says that
-- the request is as often in the one as in the other.
--
-- Not modelled: the database's own failures and locks, the malformed texts of its columns, the
-- asynchronous runner around the state machine, scripts and signatures, and the services of the
-- repository that the list above does not name.
pub mod Prelude
pub mod EvmWatcher
pub mod Orderbook
pub mod Policy
pub mod SolverOrders
pub mod Store
pub mod TxBuilder
pub mod Wallet
