-- ===== src/Store/Submit.antt =====
-- `persist_and_submit_broadcast` of wallet/runtime.rs over the store: first the durable row update,
-- then the network. The broadcaster is the trait `WalletBatchBroadcaster`, a function. An error after
-- `persist_broadcast` leaves the update in the table.
use mathlib.Core.Path.{subst}
use uni_pay.Prelude.{Result, String, err, inl, inr, ok, refl, sym, ◌≡◌, ◌⊎◌}
use uni_pay.Store.Operations.{persist_broadcast, revert_broadcast}
use uni_pay.Store.Plans.{BroadcastPersistencePlan, PersistedBatchReceipt}
use uni_pay.Store.Revert.RoundTrip.{revert_broadcast-persist_broadcast}
use uni_pay.Store.Rows.{Table}
use uni_pay.Wallet.Types.{ExecutorError}

pub data BroadcastAcceptance : Type 0 where
  was_accepted : BroadcastAcceptance
  was_ambiguous : BroadcastAcceptance
  was_rejected : BroadcastAcceptance

pub data BroadcastSubmissionResult : Type 0 where
  accepted : PersistedBatchReceipt → BroadcastSubmissionResult
  ambiguous : PersistedBatchReceipt → BroadcastSubmissionResult
  rejected : PersistedBatchReceipt → BroadcastSubmissionResult

abbrev pub Broadcaster : Type 0
Broadcaster = String → PersistedBatchReceipt → Result ExecutorError BroadcastAcceptance

-- The result, and the table that is left.
abbrev pub Submission : Type 0
Submission = Result ExecutorError BroadcastSubmissionResult × Table

abbrev pub undo : PersistedBatchReceipt → Table → Result ExecutorError Table → Submission
undo receipt t' (err e) = (err e, t')
undo receipt t' (ok t) = (ok (rejected receipt), t)

abbrev pub submitted :
    String → PersistedBatchReceipt → Table → Result ExecutorError BroadcastAcceptance → Submission
submitted scope receipt t' (err e) = (err e, t')
submitted scope receipt t' (ok was_accepted) = (ok (accepted receipt), t')
submitted scope receipt t' (ok was_ambiguous) = (ok (ambiguous receipt), t')
submitted scope receipt t' (ok was_rejected) = undo receipt t' (revert_broadcast scope receipt t')

abbrev pub submit :
    String → Broadcaster → Table → Result ExecutorError (PersistedBatchReceipt × Table) → Submission
submit scope broadcast t (err e) = (err e, t)
submit scope broadcast t (ok (receipt, t')) = submitted scope receipt t' (broadcast scope receipt)

unfoldable pub persist_and_submit_broadcast :
    String → Broadcaster → BroadcastPersistencePlan → Table → Submission
persist_and_submit_broadcast scope broadcast p t =
    submit scope broadcast t (persist_broadcast scope p t)

-- What a call of it leaves: the old table, if the store refuses the plan or the network the
-- transaction; the new table, if the network accepts it, perhaps accepts it, or gives no answer.
abbrev pub Leaves : String → Broadcaster → BroadcastPersistencePlan → Table → Submission → Type 0
Leaves scope broadcast p t (result, after) =
    ((e : ExecutorError) × (persist_broadcast scope p t ≡ err e) × (result ≡ err e) × (after ≡ t))
    ⊎ ((receipt : PersistedBatchReceipt) × (t' : Table) × (persist_broadcast scope p t
          ≡ ok (receipt, t'))
        × (((broadcast scope receipt ≡ ok was_accepted)
              × (result ≡ ok (accepted receipt))
              × (after ≡ t'))
            ⊎ ((broadcast scope receipt ≡ ok was_ambiguous)
                × (result ≡ ok (ambiguous receipt))
                × (after ≡ t'))
            ⊎ ((broadcast scope receipt ≡ ok was_rejected)
                × (result ≡ ok (rejected receipt))
                × (after ≡ t))
            ⊎ ((e : ExecutorError) × (broadcast scope receipt ≡ err e)
                × (result ≡ err e)
                × (after ≡ t'))))

-- A submission leaves the table as it was, with the store's error, if the store refuses the plan.
-- Otherwise it leaves what `persist_broadcast` wrote if the network accepts the transaction, is
-- ambiguous or fails; and if the network rejects it, the call succeeds and the table is the one before it.
pub persist_and_submit_broadcast-Leaves :
    (scope : String) (broadcast : Broadcaster) (p : BroadcastPersistencePlan) (t : Table)
    → Leaves scope broadcast p t (persist_and_submit_broadcast scope broadcast p t)
unfolding persist_and_submit_broadcast
persist_and_submit_broadcast-Leaves scope broadcast p t = stored (persist_broadcast scope p t) refl
  where
    sent :
        (receipt : PersistedBatchReceipt) (t' : Table)
        (answer : Result ExecutorError BroadcastAcceptance)
        → persist_broadcast scope p t ≡ ok (receipt, t')
        → broadcast scope receipt ≡ answer
        → Leaves scope broadcast p t (submitted scope receipt t' answer)
    sent receipt t' (err e) s b = inr (receipt, t', s, inr (inr (inr (e, b, refl, refl))))
    sent receipt t' (ok was_accepted) s b = inr (receipt, t', s, inl (b, refl, refl))
    sent receipt t' (ok was_ambiguous) s b = inr (receipt, t', s, inr (inl (b, refl, refl)))
    sent receipt t' (ok was_rejected) s b =
        subst (λ r. Leaves scope broadcast p t (undo receipt t' r))
          (sym (revert_broadcast-persist_broadcast scope p t t' receipt s))
          (inr (receipt, t', s, inr (inr (inl (b, refl, refl)))))

    stored :
        (r : Result ExecutorError (PersistedBatchReceipt × Table))
        → persist_broadcast scope p t ≡ r
        → Leaves scope broadcast p t (submit scope broadcast t r)
    stored (err e) s = inl (e, s, refl, refl)
    stored (ok (receipt, t')) s = sent receipt t' (broadcast scope receipt) s refl
