-- ===== src/Store/Facts.antt =====
-- What the checks on one row, of persistence/bitcoin_wallet.rs, have established when they pass.
use uni_pay.Prelude.{
  ap, arith, bind_ok, contains, fail_if_ok, false, inl, inr, nat_beq_iff, nat_eq, not, ok, ok_or,
  ok_or_ok, refl, some, sym, then_ok, ◌==◌, ◌∙◌, ◌≡◌, ◌⊎◌,
}
use uni_pay.Store.Operations.{check_member, check_pending, check_rbf, check_rbf_status}
use uni_pay.Store.Rows.{
  Table, WalletRequestRow, WalletRequestStatus, confirmed, dropped, ensure_matching_lineage,
  ensure_status, ensure_txid_history_append_is_safe, ensure_unique_txid_history, get_row, inflight,
  pending, status_beq_iff, status_eq,
}
use uni_pay.Wallet.Types.{LineageId, Txid, data_corruption}

ensure_status_ok :
    (s : WalletRequestStatus) (r : WalletRequestRow) → ensure_status s r ≡ ok tt → r.status ≡ s
unfolding ensure_status
ensure_status_ok s r h =
    let passed = fail_if_ok (not (r.status == s)) data_corruption h in
    (status_beq_iff r.status s).0 (ground arith)

ensure_matching_lineage_ok :
    (lineage : LineageId) (r : WalletRequestRow)
    → ensure_matching_lineage lineage r ≡ ok tt
    → r.lineage_id ≡ some lineage
unfolding ensure_matching_lineage
ensure_matching_lineage_ok lineage r h =
    let (actual, found, equal) = bind_ok (ok_or r.lineage_id data_corruption) _ h in
    let passed = fail_if_ok (not (actual == lineage)) data_corruption equal in
    let same : actual ≡ lineage = (nat_beq_iff actual lineage).0 (ground arith) in
    ok_or_ok r.lineage_id data_corruption found ∙ ap some same

append_is_safe_ok :
    (txid : Txid) (r : WalletRequestRow)
    → ensure_txid_history_append_is_safe txid r ≡ ok tt
    → contains r.txid_history txid ≡ false
unfolding ensure_txid_history_append_is_safe
append_is_safe_ok txid r h =
    fail_if_ok (contains r.txid_history txid) data_corruption
      (then_ok (ensure_unique_txid_history r.txid_history) _ h).1

pub check_member_ok :
    (lineage : LineageId) (rows : Table) (r : WalletRequestRow)
    → get_row rows r.dedupe_key ≡ ok r
    → check_member lineage rows r.dedupe_key ≡ ok tt
    → (r.status ≡ inflight) × (r.lineage_id ≡ some lineage)
unfolding check_member
check_member_ok lineage rows r own h =
    let (a, found, passed) = bind_ok (get_row rows r.dedupe_key) _ h in
    let same : a ≡ r = cc in
    let (s, l) = then_ok (ensure_status inflight a) (ensure_matching_lineage lineage a) passed in
    (
      ensure_status_ok inflight r (ap (ensure_status inflight) (sym same) ∙ s),
      ensure_matching_lineage_ok lineage r (ap (ensure_matching_lineage lineage) (sym same) ∙ l),
    )

pub check_pending_ok :
    (txid : Txid) (rows : Table) (r : WalletRequestRow)
    → get_row rows r.dedupe_key ≡ ok r
    → check_pending txid rows r.dedupe_key ≡ ok tt
    → (r.status ≡ pending) × (contains r.txid_history txid ≡ false)
unfolding check_pending
check_pending_ok txid rows r own h =
    let (a, found, passed) = bind_ok (get_row rows r.dedupe_key) _ h in
    let same : a ≡ r = cc in
    let (s, n) =
      then_ok (ensure_status pending a) (ensure_txid_history_append_is_safe txid a) passed in
    (
      ensure_status_ok pending r (ap (ensure_status pending) (sym same) ∙ s),
      append_is_safe_ok txid r (ap (ensure_txid_history_append_is_safe txid) (sym same) ∙ n),
    )

rbf_status_ok :
    (lineage : LineageId) (status : WalletRequestStatus) (r : WalletRequestRow)
    → check_rbf_status lineage status r ≡ ok tt
    → (status ≡ pending) ⊎ (status ≡ inflight)
rbf_status_ok lineage pending r h = inl refl
rbf_status_ok lineage inflight r h = inr refl
rbf_status_ok lineage confirmed r h = cc
rbf_status_ok lineage dropped r h = cc

pub check_rbf_ok :
    (lineage : LineageId) (txid : Txid) (rows : Table) (r : WalletRequestRow)
    → get_row rows r.dedupe_key ≡ ok r
    → check_rbf lineage txid rows r.dedupe_key ≡ ok tt
    → ((r.status ≡ pending) ⊎ (r.status ≡ inflight)) × (contains r.txid_history txid ≡ false)
unfolding check_rbf
check_rbf_ok lineage txid rows r own h =
    let (a, found, passed) = bind_ok (get_row rows r.dedupe_key) _ h in
    let same : a ≡ r = cc in
    let (s, n) =
      then_ok (check_rbf_status lineage a.status a) (ensure_txid_history_append_is_safe txid a)
        passed in
    (
      rbf_status_ok lineage r.status r
          (ap (λ x. check_rbf_status lineage x.status x) (sym same) ∙ s),
      append_is_safe_ok txid r (ap (ensure_txid_history_append_is_safe txid) (sym same) ∙ n),
    )
