-- ===== src/Store/Enqueue.antt =====
-- `enqueue` of persistence/bitcoin_wallet.rs is total and idempotent.
use mathlib.Core.Path.{subst}
use uni_pay.Prelude.{
  All, Bool, Bool-cases, List, Option, Result, String, [], ap, beq_refl, find, if◌then◌else◌, inl,
  inr, is_some, none, ok, ok_or, refl, some, some≢none, string_eq, sym, true, ◌&&◌, ◌++◌, ◌==◌,
  ◌>>=◌, ◌∙◌, ◌∷◌, ◌≡◌,
}
use uni_pay.Store.Lifecycle.{IsWellFormed, columns_of, has_status_columns}
use uni_pay.Store.Operations.{describe, enqueue, enqueue_row, new_row}
use uni_pay.Store.Plans.{
  EnqueueWalletRequestResult, already_confirmed, already_dropped, already_inflight, already_pending,
  enqueued_pending,
}
use uni_pay.Store.Reach.{AllWellFormed}
use uni_pay.Store.Rows.{
  Table, WalletRequestRow, WalletRequestStatus, confirmed, dropped, inflight,
  load_wallet_request_row, pending,
}
use uni_pay.Wallet.Types.{ExecutorError, LineageId, Timestamp, Txid, WalletRequest, data_corruption}

-- What a second `enqueue` reports: a row that the first one inserted is pending.
abbrev pub reported_again : EnqueueWalletRequestResult → EnqueueWalletRequestResult
reported_again enqueued_pending = already_pending
reported_again result = result

abbrev Describes : Result ExecutorError EnqueueWalletRequestResult → Type 0
Describes answer =
    (result : EnqueueWalletRequestResult) × (answer ≡ ok result) × (reported_again result ≡ result)

describe_ok : (r : WalletRequestRow) → IsWellFormed r → Describes (describe r.status r)
unfolding has_status_columns
describe_ok r h = answer r.status refl
  where
    with_batch :
        (found : LineageId → Txid → EnqueueWalletRequestResult) (lineage : Option LineageId)
        (txid : Option Txid)
        → ((l : LineageId) (t : Txid) → reported_again (found l t) ≡ found l t)
        → (is_some lineage && is_some txid) ≡ true
        → Describes (
            ok_or lineage data_corruption >>= λ l.
            ok_or txid data_corruption >>= λ t. ok (found l t))
    with_batch found none txid again c = cc
    with_batch found (some l) none again c = cc
    with_batch found (some l) (some t) again c = (found l t, refl, again l t)

    answer : (s : WalletRequestStatus) → r.status ≡ s → Describes (describe s r)
    answer pending e = (already_pending, refl, refl)
    answer dropped e = (already_dropped, refl, refl)
    answer inflight e =
        with_batch already_inflight r.lineage_id r.batch_txid (λ l t. refl)
          (sym (ap (λ s. columns_of s r.lineage_id r.batch_txid) e) ∙ h.columns)
    answer confirmed e =
        with_batch already_confirmed r.lineage_id r.batch_txid (λ l t. refl)
          (sym (ap (λ s. columns_of s r.lineage_id r.batch_txid) e) ∙ h.columns)

find-snoc {ℓ} :
    {A : Type ℓ} (p : A → Bool) (xs : List A) (x : A)
    → find p xs ≡ none
    → p x ≡ true
    → find p (xs ++ x ∷ []) ≡ some x
find-snoc p [] x e h = rw h
find-snoc p (y ∷ ys) x e h = elim (Bool-cases (p y)) [
  | inl found ↦ absurd (some≢none (ap (λ b. if b then some y else find p ys) (sym found) ∙ e))
  | inr other ↦
      rw other (find-snoc p ys x (ap (λ b. if b then some y else find p ys) (sym other) ∙ e) h)
]

find-All {ℓ κ} :
    {A : Type ℓ} (P : A → Type κ) (p : A → Bool) (xs : List A) (x : A)
    → All P xs
    → find p xs ≡ some x
    → P x
find-All P p [] x h e = cc
find-All P p (y ∷ ys) x h e = elim (Bool-cases (p y)) [
  | inl found ↦
      let same : some y ≡ some x = ap (λ b. if b then some y else find p ys) (sym found) ∙ e in
      let eq : y ≡ x = cc in subst P eq h.0
  | inr other ↦ find-All P p ys x h.1 (ap (λ b. if b then some y else find p ys) (sym other) ∙ e)
]

-- On a table of well-formed rows `enqueue` never fails, and enqueueing a request of the same key
-- again, with whatever payload and at whatever time, changes nothing and reports the same, except
-- that a row which the first call has inserted is then reported as pending.
pub enqueue-idempotent :
    (scope : String) (request again : WalletRequest) (now later : Timestamp) (t : Table)
    → AllWellFormed t
    → again.dedupe_key ≡ request.dedupe_key
    → (first : EnqueueWalletRequestResult) × (t' : Table) × (enqueue scope request now t
        ≡ ok (first, t'))
      × (enqueue scope again later t' ≡ ok (reported_again first, t'))
unfolding enqueue load_wallet_request_row
enqueue-idempotent scope request again now later t h same =
    answer (load_wallet_request_row scope request.dedupe_key t) refl
  where
    second :
        (t' : Table) (r : WalletRequestRow) (result : EnqueueWalletRequestResult)
        → load_wallet_request_row scope request.dedupe_key t' ≡ some r
        → describe r.status r ≡ ok result
        → enqueue scope again later t' ≡ ok (result, t')
    second t' r result found d =
        ap (λ key. enqueue_row (load_wallet_request_row scope key t') scope again later t') same
        ∙ ap (λ o. enqueue_row o scope again later t') found
        ∙ ap (λ a. a >>= λ x. ok (x, t')) d

    answer :
        (o : Option WalletRequestRow)
        → load_wallet_request_row scope request.dedupe_key t ≡ o
        → (first : EnqueueWalletRequestResult) × (t' : Table) × (enqueue scope request now t
            ≡ ok (first, t'))
          × (enqueue scope again later t' ≡ ok (reported_again first, t'))
    answer none e =
        let row = new_row scope request now in
        let t' = t ++ row ∷ [] in
        (
          enqueued_pending,
          t',
          ap (λ o. enqueue_row o scope request now t) e,
          second t' row already_pending
              (find-snoc (λ r. r.scope == scope && r.dedupe_key == request.dedupe_key) t row e
                (rw (beq_refl scope, beq_refl request.dedupe_key)))
              refl,
        )
    answer (some r) e =
        let well =
          find-All IsWellFormed (λ r. r.scope == scope && r.dedupe_key == request.dedupe_key) t r h
            e in
        let (result, d, shown) = describe_ok r well in
        (
          result,
          t,
          ap (λ o. enqueue_row o scope request now t) e ∙ ap (λ a. a >>= λ x. ok (x, t)) d,
          second t r result e d ∙ ap (λ x. ok (x, t)) (sym shown),
        )
