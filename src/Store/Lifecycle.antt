-- ===== src/Store/Lifecycle.antt =====
-- The lifecycle of a wallet request that wallet/store.rs documents, as a relation between the rows
-- before and after a call, and what a row of each status has.
use mathlib.Core.Path.{subst}
use uni_pay.Prelude.{
  Bool, List, Option, [], ap, append-nil, arith, beq_ne_symm, contains, contains-append, false, inl,
  inr, is_none, is_some, nat_eq, or-eq_false, or_false, refl, some, sym, true, ◌&&◌, ◌++◌, ◌==◌,
  ◌||◌, ◌∙◌, ◌∷◌, ◌≡◌, ◌⊎◌,
}
use uni_pay.Store.Rows.{
  WalletRequestRow, WalletRequestStatus, confirmed, dropped, has_duplicate, inflight, pending,
  to_confirmed, to_dropped, to_inflight, to_pending_with_anchor, to_surviving_inflight,
}
use uni_pay.Wallet.Types.{ChainAnchor, LineageId, Txid}

-- The documented transitions; `resolve_pending` cancels.
pub data StatusStep : WalletRequestStatus → WalletRequestStatus → Type 0 where
  stay : {s : WalletRequestStatus} → StatusStep s s
  send_out : StatusStep pending inflight
  win : StatusStep inflight confirmed
  requeued : StatusStep inflight pending
  cancel : StatusStep pending dropped

-- A request without a batch has no lineage and no txid; one with a batch has both; and no txid is
-- twice in a history.
abbrev pub columns_of : WalletRequestStatus → Option LineageId → Option Txid → Bool
columns_of pending lineage txid = is_none lineage && is_none txid
columns_of inflight lineage txid = is_some lineage && is_some txid
columns_of confirmed lineage txid = is_some lineage && is_some txid
columns_of dropped lineage txid = is_none lineage && is_none txid

unfoldable pub has_status_columns : WalletRequestRow → Bool
has_status_columns r = columns_of r.status r.lineage_id r.batch_txid

pub record IsWellFormed (r : WalletRequestRow) : Type 0 where
  pub columns : has_status_columns r ≡ true
  pub history : has_duplicate r.txid_history ≡ false

-- One row before and after a call: the request itself stays, its history only grows, and a
-- confirmed row stays as it is.
pub record IsTransition (r r' : WalletRequestRow) : Type 0 where
  pub step : StatusStep r.status r'.status
  pub same_scope : r'.scope ≡ r.scope
  pub same_key : r'.dedupe_key ≡ r.dedupe_key
  pub same_payload : r'.payload ≡ r.payload
  pub same_created_at : r'.created_at ≡ r.created_at
  pub grows : (more : List Txid) × (r'.txid_history ≡ r.txid_history ++ more)
  pub final : r.status ≡ confirmed → r' ≡ r
  pub keeps : IsWellFormed r → IsWellFormed r'

pub unchanged : (r : WalletRequestRow) → IsTransition r r
unchanged r = record {
  step = stay;
  same_scope = refl;
  same_key = refl;
  same_payload = refl;
  same_created_at = refl;
  grows = ([], sym (append-nil r.txid_history));
  final = λ _. refl;
  keeps = λ h. h;
}

pub to_confirmed-IsTransition :
    (txid : Txid) (r : WalletRequestRow) (lineage : LineageId)
    → r.status ≡ inflight
    → r.lineage_id ≡ some lineage
    → IsTransition r (to_confirmed txid r)
unfolding has_status_columns
to_confirmed-IsTransition txid r lineage s l = record {
  step = subst (λ a. StatusStep a confirmed) (sym s) win;
  same_scope = refl;
  same_key = refl;
  same_payload = refl;
  same_created_at = refl;
  grows = ([], sym (append-nil r.txid_history));
  final = λ c. cc;
  keeps = λ h. record { columns = ap (λ o. is_some o && true) l; history = h.history };
}

-- `to_pending` is the case of the anchor that the row has.
pub to_pending_with_anchor-IsTransition :
    (anchor : Option ChainAnchor) (r : WalletRequestRow)
    → r.status ≡ inflight
    → IsTransition r (to_pending_with_anchor anchor r)
unfolding has_status_columns
to_pending_with_anchor-IsTransition anchor r s = record {
  step = subst (λ a. StatusStep a pending) (sym s) requeued;
  same_scope = refl;
  same_key = refl;
  same_payload = refl;
  same_created_at = refl;
  grows = ([], sym (append-nil r.txid_history));
  final = λ c. cc;
  keeps = λ h. record { columns = refl; history = h.history };
}

pub to_surviving_inflight-IsTransition :
    (lineage : LineageId) (txid : Txid) (r : WalletRequestRow)
    → r.status ≡ inflight
    → IsTransition r (to_surviving_inflight lineage txid r)
unfolding has_status_columns
to_surviving_inflight-IsTransition lineage txid r s = record {
  step = subst (λ a. StatusStep a inflight) (sym s) stay;
  same_scope = refl;
  same_key = refl;
  same_payload = refl;
  same_created_at = refl;
  grows = ([], sym (append-nil r.txid_history));
  final = λ c. cc;
  keeps = λ h. record { columns = refl; history = h.history };
}

-- A txid that is not in a history is appended without making a duplicate.
has_duplicate-snoc :
    (xs : List Txid) (x : Txid)
    → has_duplicate xs ≡ false
    → contains xs x ≡ false
    → has_duplicate (xs ++ x ∷ []) ≡ false
unfolding has_duplicate
has_duplicate-snoc [] x d n = refl
has_duplicate-snoc (y ∷ ys) x d n =
    or-eq_false (contains (ys ++ x ∷ []) y) (has_duplicate (ys ++ x ∷ []))
      (contains-append ys (x ∷ []) y
        ∙ or-eq_false (contains ys y) (x == y || false) (ground arith)
            (or_false (x == y) ∙ beq_ne_symm y x (ground arith)))
      (has_duplicate-snoc ys x (ground arith) (ground arith))

pub to_inflight-IsTransition :
    (lineage : LineageId) (txid : Txid) (r : WalletRequestRow)
    → (r.status ≡ pending) ⊎ (r.status ≡ inflight)
    → contains r.txid_history txid ≡ false
    → IsTransition r (to_inflight lineage txid r)
unfolding has_status_columns
to_inflight-IsTransition lineage txid r s n = record {
  step = elim s [
    | inl p ↦ subst (λ a. StatusStep a inflight) (sym p) send_out
    | inr i ↦ subst (λ a. StatusStep a inflight) (sym i) stay
  ];
  same_scope = refl;
  same_key = refl;
  same_payload = refl;
  same_created_at = refl;
  grows = (txid ∷ [], refl);
  final = λ c. elim s [ inl p ↦ cc | inr i ↦ cc ];
  keeps =
      λ h. record { columns = refl; history = has_duplicate-snoc r.txid_history txid h.history n };
}

pub to_dropped-IsTransition :
    (r : WalletRequestRow)
    → (r.status ≡ pending) ⊎ (r.status ≡ dropped)
    → IsTransition r (to_dropped r)
unfolding has_status_columns
to_dropped-IsTransition r s = record {
  step = elim s [
    | inl p ↦ subst (λ a. StatusStep a dropped) (sym p) cancel
    | inr d ↦ subst (λ a. StatusStep a dropped) (sym d) stay
  ];
  same_scope = refl;
  same_key = refl;
  same_payload = refl;
  same_created_at = refl;
  grows = ([], sym (append-nil r.txid_history));
  final = λ c. elim s [ inl p ↦ cc | inr d ↦ cc ];
  keeps = λ h. record { columns = refl; history = h.history };
}
