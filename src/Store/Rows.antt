-- ===== src/Store/Rows.antt =====
-- The rows of `bitcoin_wallet_requests` and the UPDATE statements on them, of
-- btc-executor/src/infrastructure/persistence/bitcoin_wallet.rs. The columns hold what the store
-- itself wrote, so a text column is the value that it parses to: NULL is `none`, and a missing value
-- is an error where the code says so, while a malformed text is not modelled. `updated_at` and `kind`
-- are never read. A statement that fails in the database ends its transaction with no effect; these
-- failures are not modelled.
use uni_pay.Prelude.{
  Bool, Eq, List, Option, Result, String, [], arith, contains, err, fail_if, false, filter, find,
  if◌then◌else◌, is_empty, length, map, nat_beq, nat_eq, none, not, ok, ok_or, some, string_eq,
  true, ℕ, ◌&&◌, ◌++◌, ◌==◌, ◌>>=◌, ◌>>◌, ◌||◌, ◌↔◌, ◌∷◌, ◌≡◌,
}
use uni_pay.Wallet.Types.{
  ChainAnchor, ExecutorError, LineageId, Timestamp, Txid, WalletRequestKind, data_corruption,
}

pub data WalletRequestStatus : Type 0 where
  pending : WalletRequestStatus
  inflight : WalletRequestStatus
  confirmed : WalletRequestStatus
  dropped : WalletRequestStatus

abbrev pub status_code : WalletRequestStatus → ℕ
status_code pending = 0
status_code inflight = 1
status_code confirmed = 2
status_code dropped = 3

pub status_beq_iff :
    (a b : WalletRequestStatus) → (nat_beq (status_code a) (status_code b) ≡ true) ↔ (a ≡ b)
status_beq_iff a b = ground arith

instance abbrev pub status_eq : Eq WalletRequestStatus
status_eq = record {
  beq = λ a b. nat_beq (status_code a) (status_code b);
  beq_iff = status_beq_iff;
}

unfoldable pub as_str : WalletRequestStatus → String
as_str pending = "pending"
as_str inflight = "inflight"
as_str confirmed = "confirmed"
as_str dropped = "dropped"

unfoldable pub try_from : String → Result ExecutorError WalletRequestStatus
try_from value =
    if value == "pending"
    then ok pending
    else if value == "inflight"
    then ok inflight
    else if value == "confirmed"
    then ok confirmed
    else if value == "dropped"
    then ok dropped
    else err data_corruption

pub record WalletRequestRow : Type 0 where
  pub scope : String
  pub dedupe_key : String
  pub status : WalletRequestStatus
  pub lineage_id : Option LineageId
  pub batch_txid : Option Txid
  pub txid_history : List Txid
  pub chain_anchor : Option ChainAnchor
  pub payload : WalletRequestKind
  pub created_at : Timestamp

abbrev pub Table : Type 0
Table = List WalletRequestRow

-- `WHERE scope = $1 AND dedupe_key = ANY($2)`
unfoldable pub is_selected : String → List String → WalletRequestRow → Bool
is_selected scope keys r = r.scope == scope && contains keys r.dedupe_key

abbrev pub update_if :
    (WalletRequestRow → Bool)
    → (WalletRequestRow → WalletRequestRow)
    → WalletRequestRow
    → WalletRequestRow
update_if p f r = if p r then f r else r

unfoldable pub update_rows :
    String → List String → (WalletRequestRow → WalletRequestRow) → Table → Table
update_rows scope keys f = map (update_if (is_selected scope keys) f)

abbrev pub to_inflight : LineageId → Txid → WalletRequestRow → WalletRequestRow
to_inflight lineage txid r = record r {
  status = inflight;
  lineage_id = some lineage;
  batch_txid = some txid;
  txid_history = r.txid_history ++ txid ∷ [];
}

abbrev pub to_surviving_inflight : LineageId → Txid → WalletRequestRow → WalletRequestRow
to_surviving_inflight lineage txid r = record r {
  status = inflight;
  lineage_id = some lineage;
  batch_txid = some txid;
}

abbrev pub to_pending : WalletRequestRow → WalletRequestRow
to_pending r = record r { status = pending; lineage_id = none; batch_txid = none }

abbrev pub to_dropped : WalletRequestRow → WalletRequestRow
to_dropped r = record r { status = dropped; lineage_id = none; batch_txid = none }

abbrev pub to_confirmed : Txid → WalletRequestRow → WalletRequestRow
to_confirmed txid r = record r { status = confirmed; batch_txid = some txid; chain_anchor = none }

abbrev pub to_pending_with_anchor : Option ChainAnchor → WalletRequestRow → WalletRequestRow
to_pending_with_anchor anchor r = record r {
  status = pending;
  lineage_id = none;
  batch_txid = none;
  chain_anchor = anchor;
}

unfoldable pub update_rows_to_inflight : String → List String → LineageId → Txid → Table → Table
unfolding update_rows
update_rows_to_inflight scope keys lineage txid = update_rows scope keys (to_inflight lineage txid)

unfoldable pub update_rows_to_surviving_inflight :
    String → List String → LineageId → Txid → Table → Table
unfolding update_rows
update_rows_to_surviving_inflight scope keys lineage txid =
    update_rows scope keys (to_surviving_inflight lineage txid)

unfoldable pub update_rows_to_pending : String → List String → Table → Table
unfolding update_rows
update_rows_to_pending scope keys = update_rows scope keys to_pending

unfoldable pub update_rows_to_dropped : String → List String → Table → Table
unfolding update_rows
update_rows_to_dropped scope keys = update_rows scope keys to_dropped

unfoldable pub update_rows_to_confirmed : String → List String → Txid → Table → Table
unfolding update_rows
update_rows_to_confirmed scope keys txid = update_rows scope keys (to_confirmed txid)

unfoldable pub update_rows_to_pending_with_optional_anchor :
    String → List String → Option ChainAnchor → Table → Table
unfolding update_rows
update_rows_to_pending_with_optional_anchor scope keys anchor =
    update_rows scope keys (to_pending_with_anchor anchor)

-- `SELECT … FOR UPDATE`, with the check of the number of rows. The order of the rows is the order in
-- which they are locked; they are then found by key.
unfoldable pub load_wallet_request_rows_for_update :
    String → List String → Table → Result ExecutorError Table
unfolding is_selected
load_wallet_request_rows_for_update scope keys t =
    let rows = filter (is_selected scope keys) t in
    if is_empty keys
    then ok []
    else if length rows == length keys
    then ok rows
    else err data_corruption

unfoldable pub load_wallet_request_row : String → String → Table → Option WalletRequestRow
load_wallet_request_row scope key t = find (λ r. r.scope == scope && r.dedupe_key == key) t

-- No value twice: what `ensure_unique_keys` and `ensure_unique_txid_history` test with a set.
unfoldable pub has_duplicate {ℓ} : {A : Type ℓ} ⦃e : Eq A⦄ → List A → Bool
has_duplicate [] = false
has_duplicate (x ∷ xs) = contains xs x || has_duplicate xs

abbrev pub keys_of : Table → List String
keys_of t = map (λ r. r.dedupe_key) t

unfoldable pub index_wallet_request_rows : Table → Result ExecutorError Table
unfolding has_duplicate
index_wallet_request_rows rows =
    if has_duplicate (keys_of rows) then err data_corruption else ok rows

-- `rows_by_key.get(key).ok_or_else(…)`
unfoldable pub get_row : Table → String → Result ExecutorError WalletRequestRow
get_row rows key = ok_or (find (λ r. r.dedupe_key == key) rows) data_corruption

unfoldable pub ensure_status :
    WalletRequestStatus → WalletRequestRow → Result ExecutorError (Unit {0})
ensure_status expected r = fail_if (not (r.status == expected)) data_corruption

unfoldable pub ensure_matching_lineage :
    LineageId → WalletRequestRow → Result ExecutorError (Unit {0})
ensure_matching_lineage expected r = do
  actual ← ok_or r.lineage_id data_corruption
  fail_if (not (actual == expected)) data_corruption

unfoldable pub ensure_unique_txid_history : List Txid → Result ExecutorError (Unit {0})
unfolding has_duplicate
ensure_unique_txid_history txids = fail_if (has_duplicate txids) data_corruption

unfoldable pub ensure_txid_history_append_is_safe :
    Txid → WalletRequestRow → Result ExecutorError (Unit {0})
unfolding ensure_unique_txid_history
ensure_txid_history_append_is_safe next r =
    ensure_unique_txid_history r.txid_history
    >> fail_if (contains r.txid_history next) data_corruption
