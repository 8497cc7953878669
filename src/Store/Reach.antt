-- ===== src/Store/Reach.antt =====
-- The tables that calls of the store reach, and what holds of all of them.
use mathlib.Core.Path.{subst}
use uni_pay.Prelude.{
  All, All-append, Option, Pairwise, String, [], arith, bind_ok, inl, inr, none, ok, refl, some,
  sym, ◌++◌, ◌∷◌, ◌≡◌, ◌⊎◌,
}
use uni_pay.Store.Broadcasts.{persist_broadcast-IsTransition, resolve_pending-IsTransition}
use uni_pay.Store.Lifecycle.{IsTransition, IsWellFormed, has_status_columns}
use uni_pay.Store.Operations.{
  describe, enqueue, enqueue_row, new_row, persist_broadcast, persist_confirmation,
  persist_reconciliation, resolve_pending,
}
use uni_pay.Store.Plans.{
  BroadcastPersistencePlan, ConfirmationPersistencePlan, EnqueueWalletRequestResult,
  PersistedBatchReceipt, ReconciliationPersistencePlan, ResolvePendingWalletRequestResult,
}
use uni_pay.Store.Rows.{Table, WalletRequestRow, has_duplicate, load_wallet_request_row}
use uni_pay.Store.Transitions.{
  persist_confirmation-IsTransition, persist_reconciliation-IsTransition,
}
use uni_pay.Wallet.Types.{Timestamp, WalletRequest}

-- One accepted call. A `revert_broadcast` that undoes the last broadcast leads back to the table
-- before it.
pub data StoreCall (scope : String) : Table → Table → Type 0 where
  enqueued :
      (request : WalletRequest) (now : Timestamp) (result : EnqueueWalletRequestResult)
      {t t' : Table}
      → enqueue scope request now t ≡ ok (result, t')
      → StoreCall scope t t'
  resolved :
      (key : String) (result : ResolvePendingWalletRequestResult) {t t' : Table}
      → resolve_pending scope key t ≡ ok (result, t')
      → StoreCall scope t t'
  broadcasted :
      (p : BroadcastPersistencePlan) (receipt : PersistedBatchReceipt) {t t' : Table}
      → persist_broadcast scope p t ≡ ok (receipt, t')
      → StoreCall scope t t'
  confirmed_batch :
      (p : ConfirmationPersistencePlan) {t t' : Table}
      → persist_confirmation scope p t ≡ ok t'
      → StoreCall scope t t'
  reconciled :
      (p : ReconciliationPersistencePlan) {t t' : Table}
      → persist_reconciliation scope p t ≡ ok t'
      → StoreCall scope t t'

pub data Reachable (scope : String) : Table → Type 0 where
  empty : Reachable scope []
  call : {t t' : Table} → Reachable scope t → StoreCall scope t t' → Reachable scope t'

abbrev pub AllWellFormed : Table → Type 0
AllWellFormed t = All IsWellFormed t

Pairwise-AllWellFormed :
    (t t' : Table) → Pairwise IsTransition t t' → AllWellFormed t → AllWellFormed t'
Pairwise-AllWellFormed [] [] p h = tt
Pairwise-AllWellFormed (r ∷ rs) (x ∷ xs) p h = (p.0.keeps h.0, Pairwise-AllWellFormed rs xs p.1 h.1)
Pairwise-AllWellFormed [] (x ∷ xs) p h = absurd p
Pairwise-AllWellFormed (r ∷ rs) [] p h = absurd p

-- An `enqueue` appends a pending row under a new key, or changes nothing.
pub enqueue_cases :
    (scope : String) (request : WalletRequest) (now : Timestamp) (t t' : Table)
    (result : EnqueueWalletRequestResult)
    → enqueue scope request now t ≡ ok (result, t')
    → (t' ≡ t)
      ⊎ ((load_wallet_request_row scope request.dedupe_key t ≡ none)
          × (t' ≡ t ++ new_row scope request now ∷ []))
unfolding enqueue
enqueue_cases scope request now t t' result e =
    answer (load_wallet_request_row scope request.dedupe_key t) refl e
  where
    answer :
        (o : Option WalletRequestRow)
        → load_wallet_request_row scope request.dedupe_key t ≡ o
        → enqueue_row o scope request now t ≡ ok (result, t')
        → (t' ≡ t)
          ⊎ ((load_wallet_request_row scope request.dedupe_key t ≡ none)
              × (t' ≡ t ++ new_row scope request now ∷ []))
    answer none found a = inr (found, ground arith)
    answer (some r) found a =
        let (known, _, same) = bind_ok (describe r.status r) _ a in inl (ground arith)

new_row-IsWellFormed :
    (scope : String) (request : WalletRequest) (now : Timestamp)
    → IsWellFormed (new_row scope request now)
unfolding has_status_columns has_duplicate
new_row-IsWellFormed scope request now = record { columns = refl; history = refl }

-- In every table that the calls reach from the empty one, a row has a lineage and a txid exactly if
-- its request is inflight or confirmed, and no txid twice in its history.
pub Reachable-AllWellFormed : (scope : String) (t : Table) → Reachable scope t → AllWellFormed t
Reachable-AllWellFormed scope t empty = tt
Reachable-AllWellFormed scope t (call {t = before} path c) =
    after c (Reachable-AllWellFormed scope before path)
  where
    after : {b a : Table} → StoreCall scope b a → AllWellFormed b → AllWellFormed a
    after (enqueued request now result {t = b} {t' = a} e) h =
        elim (enqueue_cases scope request now b a result e) [
          | inl same ↦ subst AllWellFormed (sym same) h
          | inr (_, more) ↦ subst AllWellFormed (sym more) (
              All-append IsWellFormed b (new_row scope request now ∷ []) h
                (new_row-IsWellFormed scope request now, tt))
        ]
    after (resolved key result {t = b} {t' = a} e) h =
        Pairwise-AllWellFormed b a (resolve_pending-IsTransition scope key b a result e) h
    after (broadcasted p receipt {t = b} {t' = a} e) h =
        Pairwise-AllWellFormed b a (persist_broadcast-IsTransition scope p b a receipt e) h
    after (confirmed_batch p {t = b} {t' = a} e) h =
        Pairwise-AllWellFormed b a (persist_confirmation-IsTransition scope p b a e) h
    after (reconciled p {t = b} {t' = a} e) h =
        Pairwise-AllWellFormed b a (persist_reconciliation-IsTransition scope p b a e) h
