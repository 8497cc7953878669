-- ===== src/Store/Restore.antt =====
-- `restore` of persistence/bitcoin_wallet.rs: the pending requests and the live lineages from the
-- rows. A lineage id's text has a fixed width, so its order is that of the numbers; the keys are
-- ordered by code points, where the database uses its collation. Neither order matters below.
pub mod Sorting
pub mod Heads
pub mod Merged
pub mod Within
pub mod Order
pub mod Conserves
use mathlib.Core.Option
use uni_pay.Prelude.{
  Bool, List, Option, Result, String, [], collect, err, fail_if, false, filter, if◌then◌else◌, leb,
  ltb, nat_eq, none, not, ok, ok_or, option_eq, some, string_eq, suc, true, zero, ℕ, ◌&&◌, ◌++◌,
  ◌+◌, ◌==◌, ◌>>=◌, ◌>>◌, ◌∷◌,
}
use uni_pay.Store.Plans.{sort_by}
use uni_pay.Store.Rows.{
  Table, WalletRequestRow, WalletRequestStatus, ensure_unique_txid_history, inflight, pending,
  status_eq,
}
use uni_pay.Wallet.Request.{from_parts}
use uni_pay.Wallet.Types.{
  ChainAnchor, ExecutorError, LineageId, LiveLineageRequest, LiveLineageSnapshot,
  PendingWalletRequest, RestoredWalletState, Txid, WalletRequest, anchor_eq, data_corruption,
}

pub record InflightAccumulator : Type 0 where
  pub lineage_id : LineageId
  pub head_txid : Txid
  pub all_txids : List Txid
  pub requests : List LiveLineageRequest
  pub chain_anchor : Option ChainAnchor

abbrev pub new_accumulator : LineageId → Txid → Option ChainAnchor → InflightAccumulator
new_accumulator lineage head anchor = record {
  lineage_id = lineage;
  head_txid = head;
  all_txids = [];
  requests = [];
  chain_anchor = anchor;
}

unfoldable pub finish : InflightAccumulator → LiveLineageSnapshot
finish a = record {
  lineage_id = a.lineage_id;
  head_txid = a.head_txid;
  all_txids = a.all_txids;
  requests = a.requests;
  cover_utxos = [];
  chain_anchor = a.chain_anchor;
}

unfoldable pub into_request : WalletRequestRow → Result ExecutorError WalletRequest
into_request r = elim (from_parts r.dedupe_key r.payload) [
  | ok request ↦ ok request
  | err _ ↦ err data_corruption
]

abbrev pub last : List Txid → Option Txid
last [] = none
last (x ∷ []) = some x
last (x ∷ y ∷ ys) = last (y ∷ ys)

unfoldable pub ensure_inflight_row_history_targets_head :
    List Txid → Txid → Result ExecutorError (Unit {0})
unfolding ensure_unique_txid_history
ensure_inflight_row_history_targets_head history head =
    ensure_unique_txid_history history >> fail_if (not (last history == some head)) data_corruption

-- `iter().position`
abbrev pub position : Txid → List Txid → Option ℕ
position x [] = none
position x (y ∷ ys) = if y == x then some 0 else Option.map suc (position x ys)

-- `Vec::insert`, at an index within the length.
abbrev pub insert_at : ℕ → Txid → List Txid → List Txid
insert_at zero x ys = x ∷ ys
insert_at (suc i) x [] = x ∷ []
insert_at (suc i) x (y ∷ ys) = y ∷ insert_at i x ys

abbrev pub is_before : ℕ → Option ℕ → Bool
is_before index none = false
is_before index (some cursor) = ltb index cursor

abbrev pub after_cursor : Option ℕ → ℕ
after_cursor none = 0
after_cursor (some index) = index + 1

-- The loop of `merge_ordered_unique_txids`, from a cursor on.
unfoldable pub merge_from : Option ℕ → List Txid → List Txid → Result ExecutorError (List Txid)
merge_from cursor all_txids [] = ok all_txids
merge_from cursor all_txids (txid ∷ rest) = elim (position txid all_txids) [
  | none ↦
      merge_from (some (after_cursor cursor)) (insert_at (after_cursor cursor) txid all_txids) rest
  | some existing ↦
      if is_before existing cursor
      then err data_corruption
      else merge_from (some existing) all_txids rest
]

unfoldable pub merge_ordered_unique_txids : List Txid → List Txid → Result ExecutorError (List Txid)
unfolding ensure_unique_txid_history merge_from
merge_ordered_unique_txids all_txids row_txids =
    ensure_unique_txid_history row_txids >> merge_from none all_txids row_txids

-- A row's request joins the lineage that is being built.
unfoldable pub join_row :
    InflightAccumulator → List Txid → LiveLineageRequest → Result ExecutorError InflightAccumulator
unfolding merge_ordered_unique_txids
join_row a history request = do
  merged ← merge_ordered_unique_txids a.all_txids history
  ok (record a { all_txids = merged; requests = a.requests ++ request ∷ [] })

-- The anchor of a lineage: the first that a row has; the others must agree.
abbrev pub merge_anchor :
    Option ChainAnchor → Option ChainAnchor → Result ExecutorError (Option ChainAnchor)
merge_anchor known none = ok known
merge_anchor none (some a) = ok (some a)
merge_anchor (some b) (some a) = if b == a then ok (some b) else err data_corruption

-- The lineages that are complete, and the one that is being built.
abbrev pub Restoring : Type 0
Restoring = List LiveLineageSnapshot × Option InflightAccumulator

unfoldable pub place_row :
    Restoring
    → LineageId
    → Txid
    → Option ChainAnchor
    → List Txid
    → LiveLineageRequest
    → Result ExecutorError Restoring
unfolding finish join_row
place_row (complete, none) lineage head anchor history request = do
  a ← join_row (new_accumulator lineage head anchor) history request
  ok (complete, some a)
place_row (complete, some current) lineage head anchor history request =
    if current.lineage_id == lineage
    then (do
      fail_if (not (current.head_txid == head)) data_corruption
      merged ← merge_anchor current.chain_anchor anchor
      a ← join_row (record current { chain_anchor = merged }) history request
      ok (complete, some a))
    else (do
      a ← join_row (new_accumulator lineage head anchor) history request
      ok (complete ++ finish current ∷ [], some a))

unfoldable pub restore_inflight_row : Restoring → WalletRequestRow → Result ExecutorError Restoring
unfolding into_request ensure_inflight_row_history_targets_head place_row
restore_inflight_row state r = do
  lineage ← ok_or r.lineage_id data_corruption
  head ← ok_or r.batch_txid data_corruption
  ensure_inflight_row_history_targets_head r.txid_history head
  request ← into_request r
  place_row state lineage head r.chain_anchor r.txid_history
      (record { request = request; txid_history = r.txid_history; created_at = r.created_at })

unfoldable pub restore_inflight : List WalletRequestRow → Restoring → Result ExecutorError Restoring
unfolding restore_inflight_row
restore_inflight [] state = ok state
restore_inflight (r ∷ rs) state = restore_inflight_row state r >>= λ next. restore_inflight rs next

unfoldable pub restore_pending_row : WalletRequestRow → Result ExecutorError PendingWalletRequest
unfolding into_request
restore_pending_row r = do
  request ← into_request r
  ok (record { request = request; chain_anchor = r.chain_anchor; created_at = r.created_at })

-- `ORDER BY lineage_id ASC NULLS LAST`
abbrev pub lineage_leb : Option LineageId → Option LineageId → Bool
lineage_leb (some a) (some b) = leb a b
lineage_leb (some a) none = true
lineage_leb none (some b) = false
lineage_leb none none = true

unfoldable pub insert_by_lineage : WalletRequestRow → Table → Table
insert_by_lineage r [] = r ∷ []
insert_by_lineage r (x ∷ xs) =
    if lineage_leb r.lineage_id x.lineage_id then r ∷ x ∷ xs else x ∷ insert_by_lineage r xs

unfoldable pub sort_by_lineage : Table → Table
unfolding insert_by_lineage
sort_by_lineage [] = []
sort_by_lineage (r ∷ rs) = insert_by_lineage r (sort_by_lineage rs)

abbrev pub in_scope : String → WalletRequestStatus → WalletRequestRow → Bool
in_scope scope status r = r.scope == scope && r.status == status

abbrev pub finish_all : Restoring → List LiveLineageSnapshot
finish_all (complete, none) = complete
finish_all (complete, some a) = complete ++ finish a ∷ []

unfoldable pub restore : String → Table → Result ExecutorError RestoredWalletState
unfolding restore_pending_row restore_inflight sort_by_lineage finish
restore scope t = do
  requests ←
      collect restore_pending_row (sort_by (λ r. r.dedupe_key) (filter (in_scope scope pending) t))
  state ←
      restore_inflight
        (sort_by_lineage (sort_by (λ r. r.dedupe_key) (filter (in_scope scope inflight) t)))
        ([], none)
  ok (record { pending = requests; inflight = finish_all state })
