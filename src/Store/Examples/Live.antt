-- ===== src/Store/Examples/Live.antt =====
-- Concrete tables for the restored state of the store and for the tables that calls reach.

use mathlib.Core.Path.{refl}
use uni_pay.Prelude.{All, Option, String, [], none, ok, total, true, ℕ, ◌∷◌, ◌≡◌}
use uni_pay.Store.Enqueue.{enqueue-idempotent, reported_again}
use uni_pay.Store.Examples.{losing, moving, request_of, row_of, table, waiting}
use uni_pay.Store.Operations.{enqueue, resolve_pending}
use uni_pay.Store.Plans.{
  BroadcastPersistencePlan, EnqueueWalletRequestResult, cancelled_pending, enqueued_pending, fresh,
  insert_by, sort_by,
}
use uni_pay.Store.Reach.{AllWellFormed, Reachable, Reachable-AllWellFormed, call, empty, enqueued}
use uni_pay.Store.Restore.{
  ensure_inflight_row_history_targets_head, finish, in_scope, insert_by_lineage, into_request,
  join_row, merge_from, merge_ordered_unique_txids, place_row, restore, restore_inflight,
  restore_inflight_row, restore_pending_row, sort_by_lineage,
}
use uni_pay.Store.Restore.Conserves.{
  Weight, pending_row_weight, pending_weight, restore_conserves, row_weight, snapshot_weight,
}
use uni_pay.Store.Restore.Heads.{IsHeadLast, restore-IsHeadLast}
use uni_pay.Store.Restore.Merged.{IsMerge, merge_ordered_unique_txids-IsMerge}
use uni_pay.Store.Restore.Order.{merge_ordered_unique_txids-IsWithin}
use uni_pay.Store.Restore.Within.{IsWithin}
use uni_pay.Store.Rows.{
  Table, dropped, ensure_unique_txid_history, has_duplicate, inflight, is_selected,
  load_wallet_request_row, load_wallet_request_rows_for_update, update_rows, update_rows_to_dropped,
}
use uni_pay.Wallet.Request.{from_parts, is_blank, validate_dedupe_key, validate_kind}
use uni_pay.Wallet.Types.{ChainAnchor, RestoredWalletState, Timestamp, WalletRequestKind}

abbrev live_state : RestoredWalletState
live_state = record {
  pending = record { request = request_of "a"; chain_anchor = none; created_at = 50 } ∷ [];
  inflight =
      record {
        lineage_id = 3;
        head_txid = 12;
        all_txids = 11 ∷ 12 ∷ [];
        requests =
            record { request = request_of "b"; txid_history = 11 ∷ 12 ∷ []; created_at = 50 }
            ∷ record { request = request_of "c"; txid_history = 12 ∷ []; created_at = 50 }
            ∷ [];
        cover_utxos = [];
        chain_anchor = none;
      }
      ∷ [];
}

live_state_lem : restore "bitcoin" table ≡ ok live_state
unfolding restore restore_pending_row restore_inflight restore_inflight_row sort_by sort_by_lineage
    insert_by insert_by_lineage into_request from_parts validate_dedupe_key validate_kind is_blank
    ensure_inflight_row_history_targets_head ensure_unique_txid_history has_duplicate place_row
    join_row merge_ordered_unique_txids merge_from finish
live_state_lem = refl

restore-IsHeadLast_example : All (λ r. in_scope "bitcoin" inflight r ≡ true → IsHeadLast r) table
restore-IsHeadLast_example = restore-IsHeadLast "bitcoin" table live_state live_state_lem

restore_conserves_example :
    ((u : String → WalletRequestKind → Option ChainAnchor → Timestamp → ℕ)
      → total (pending_weight u) live_state.pending ≡ total (pending_row_weight u) (waiting ∷ []))
    × ((v : Weight)
        → total (snapshot_weight v) live_state.inflight
          ≡ total (row_weight v) (moving ∷ losing ∷ []))
restore_conserves_example = restore_conserves "bitcoin" table live_state live_state_lem

-- A table that calls have reached: one request, enqueued and broadcast.
abbrev first_batch : BroadcastPersistencePlan
first_batch = record {
  kind = fresh;
  lineage_id = 4;
  txid = 21;
  raw_tx_hex = "00";
  included_request_keys = "a" ∷ [];
  dropped_request_keys = [];
}

enqueued_lem : enqueue "bitcoin" (request_of "a") 50 [] ≡ ok (enqueued_pending, waiting ∷ [])
unfolding enqueue load_wallet_request_row
enqueued_lem = refl

reachable_lem : Reachable "bitcoin" (waiting ∷ [])
reachable_lem = call empty (enqueued (request_of "a") 50 enqueued_pending enqueued_lem)

Reachable-AllWellFormed_example : AllWellFormed (waiting ∷ [])
Reachable-AllWellFormed_example = Reachable-AllWellFormed "bitcoin" (waiting ∷ []) reachable_lem

enqueue-idempotent_example :
    (first : EnqueueWalletRequestResult) × (t' : Table) × (enqueue "bitcoin"
        (request_of "d")
        60
        (waiting ∷ [])
      ≡ ok (first, t'))
    × (enqueue "bitcoin" (request_of "d") 70 t' ≡ ok (reported_again first, t'))
enqueue-idempotent_example =
    enqueue-idempotent "bitcoin" (request_of "d") (request_of "d") 60 70 (waiting ∷ [])
      Reachable-AllWellFormed_example refl

abbrev cancelled : Table
cancelled = row_of "a" dropped none none [] ∷ moving ∷ losing ∷ []

cancelled_lem : resolve_pending "bitcoin" "a" table ≡ ok (cancelled_pending, cancelled)
unfolding resolve_pending load_wallet_request_rows_for_update is_selected update_rows_to_dropped
    update_rows
cancelled_lem = refl

-- A row whose history begins before that of its lineage and ends after it.
stitched_lem :
    merge_ordered_unique_txids (2 ∷ 3 ∷ 4 ∷ []) (1 ∷ 2 ∷ 4 ∷ 5 ∷ []) ≡ ok (1 ∷ 2 ∷ 3 ∷ 4 ∷ 5 ∷ [])
unfolding merge_ordered_unique_txids merge_from ensure_unique_txid_history has_duplicate
stitched_lem = refl

merge_ordered_unique_txids-IsWithin_example :
    IsWithin (1 ∷ 2 ∷ 4 ∷ 5 ∷ []) (1 ∷ 2 ∷ 3 ∷ 4 ∷ 5 ∷ [])
    × IsWithin (2 ∷ 3 ∷ 4 ∷ []) (1 ∷ 2 ∷ 3 ∷ 4 ∷ 5 ∷ [])
merge_ordered_unique_txids-IsWithin_example =
    merge_ordered_unique_txids-IsWithin (2 ∷ 3 ∷ 4 ∷ []) (1 ∷ 2 ∷ 4 ∷ 5 ∷ [])
      (1 ∷ 2 ∷ 3 ∷ 4 ∷ 5 ∷ []) stitched_lem

merge_ordered_unique_txids-IsMerge_example :
    IsMerge (2 ∷ 3 ∷ 4 ∷ []) (1 ∷ 2 ∷ 4 ∷ 5 ∷ []) (1 ∷ 2 ∷ 3 ∷ 4 ∷ 5 ∷ [])
merge_ordered_unique_txids-IsMerge_example =
    merge_ordered_unique_txids-IsMerge (2 ∷ 3 ∷ 4 ∷ []) (1 ∷ 2 ∷ 4 ∷ 5 ∷ [])
      (1 ∷ 2 ∷ 3 ∷ 4 ∷ 5 ∷ []) (refl, (refl, (refl, tt))) stitched_lem
