-- ===== src/Store/Restore/Conserves.antt =====
-- What `restore` of persistence/bitcoin_wallet.rs keeps of the rows.
use uni_pay.Prelude.{
  Bool-cases, List, Option, Result, String, [], ap, arith, bind_ok, collect, eq_of_beq, err, err_ok,
  fail_if, fail_if_ok, filter, if◌then◌else◌, inl, inr, nat_eq, none, not, not-false, ok,
  ok_injective, ok_or, ok_or_ok, refl, some, sym, then_ok, total, total-append, ℕ, ◌++◌, ◌+◌, ◌==◌,
  ◌>>=◌, ◌>>◌, ◌∙◌, ◌∷◌, ◌≡◌,
}
use uni_pay.Store.Plans.{sort_by}
use uni_pay.Store.Restore.{
  InflightAccumulator, Restoring, ensure_inflight_row_history_targets_head, finish, finish_all,
  in_scope, into_request, join_row, merge_anchor, merge_ordered_unique_txids, new_accumulator,
  place_row, restore, restore_inflight, restore_inflight_row, restore_pending_row, sort_by_lineage,
}
use uni_pay.Store.Restore.Sorting.{total-sort_by, total-sort_by_lineage}
use uni_pay.Store.Rows.{Table, WalletRequestRow, inflight, pending}
use uni_pay.Wallet.Request.{WalletRequestError, from_parts}
use uni_pay.Wallet.Request.Validation.{from_parts-eq_ok_iff}
use uni_pay.Wallet.Types.{
  ChainAnchor, ExecutorError, LineageId, LiveLineageRequest, LiveLineageSnapshot,
  PendingWalletRequest, RestoredWalletState, Timestamp, Txid, WalletRequest, WalletRequestKind,
  data_corruption,
}

-- A weight on a request's lineage, head, history, key, payload and time. Two collections in which every
-- weight is the same have the same entries, each as often.
abbrev pub Weight : Type 0
Weight = LineageId → Txid → List Txid → String → WalletRequestKind → Timestamp → ℕ

into_request_ok :
    (r : WalletRequestRow) (request : WalletRequest)
    → into_request r ≡ ok request
    → request ≡ record { dedupe_key = r.dedupe_key; kind = r.payload }
unfolding into_request
into_request_ok r request e = answer (from_parts r.dedupe_key r.payload) refl e
  where
    answer :
        (a : Result WalletRequestError WalletRequest)
        → from_parts r.dedupe_key r.payload ≡ a
        → (elim a [ ok q ↦ ok q | err _ ↦ err data_corruption ]) ≡ ok request
        → request ≡ record { dedupe_key = r.dedupe_key; kind = r.payload }
    answer (ok q) parts h =
        let same : q ≡ request = ok_injective h refl refl in
        sym same ∙ ((from_parts-eq_ok_iff r.dedupe_key r.payload q).0 parts).2
    answer (err x) parts h = absurd (err_ok data_corruption h)

module _ (v : Weight) where
  abbrev pub weight_of : Option LineageId → Option Txid → WalletRequestRow → ℕ
  weight_of (some l) (some h) r = v l h r.txid_history r.dedupe_key r.payload r.created_at
  weight_of _ _ r = 0

  unfoldable pub row_weight : WalletRequestRow → ℕ
  row_weight r = weight_of r.lineage_id r.batch_txid r

  abbrev member_weight : LineageId → Txid → LiveLineageRequest → ℕ
  member_weight l h q = v l h q.txid_history q.request.dedupe_key q.request.kind q.created_at

  abbrev pub snapshot_weight : LiveLineageSnapshot → ℕ
  snapshot_weight l = total (member_weight l.lineage_id l.head_txid) l.requests

  abbrev building_weight : Option InflightAccumulator → ℕ
  building_weight none = 0
  building_weight (some a) = total (member_weight a.lineage_id a.head_txid) a.requests

  abbrev state_weight : Restoring → ℕ
  state_weight (complete, building) = total snapshot_weight complete + building_weight building

  join_row-weight :
      (a b : InflightAccumulator) (history : List Txid) (q : LiveLineageRequest)
      → join_row a history q ≡ ok b
      → building_weight (some b)
        ≡ building_weight (some a) + member_weight a.lineage_id a.head_txid q
  unfolding join_row
  join_row-weight a b history q e =
      let (merged, _, e1) = bind_ok (merge_ordered_unique_txids a.all_txids history) _ e in
      let made : InflightAccumulator = record a {
        all_txids = merged;
        requests = a.requests ++ q ∷ [];
      } in
      let same : made ≡ b = ok_injective e1 refl refl in
      ap (λ c. building_weight (some c)) (sym same)
      ∙ omega (arith, total-append (member_weight a.lineage_id a.head_txid) a.requests (q ∷ []))

  place_row-weight :
      (state next : Restoring) (l : LineageId) (h : Txid) (anchor : Option ChainAnchor)
      (history : List Txid) (q : LiveLineageRequest)
      → place_row state l h anchor history q ≡ ok next
      → state_weight next ≡ state_weight state + member_weight l h q
  unfolding place_row finish
  place_row-weight (complete, none) next l h anchor history q e =
      let (a, joined, e1) = bind_ok (join_row (new_accumulator l h anchor) history q) _ e in
      let same : (complete, some a) ≡ next = ok_injective e1 refl refl in
      ap state_weight (sym same)
      ∙ omega (arith, join_row-weight (new_accumulator l h anchor) a history q joined)
  place_row-weight (complete, some c) next l h anchor history q e =
      elim (Bool-cases (c.lineage_id == l)) [
        | inl own ↦
            let e1 = ap (λ b. if b then grow else start) (sym own) ∙ e in
            let (heads, e2) = then_ok (fail_if (not (c.head_txid == h)) data_corruption) _ e1 in
            let (merged, _, e3) = bind_ok (merge_anchor c.chain_anchor anchor) _ e2 in
            let (a, joined, e4) =
              bind_ok (join_row (record c { chain_anchor = merged }) history q) _ e3 in
            let same : (complete, some a) ≡ next = ok_injective e4 refl refl in
            let head_eq : c.head_txid ≡ h = eq_of_beq c.head_txid h (
              not-false (c.head_txid == h)
                (fail_if_ok (not (c.head_txid == h)) data_corruption heads)) in
            ap state_weight (sym same)
            ∙ omega (
              arith,
              join_row-weight (record c { chain_anchor = merged }) a history q joined,
              ap (λ x. member_weight x c.head_txid q) (eq_of_beq c.lineage_id l own),
              ap (λ x. member_weight l x q) head_eq,
            )
        | inr other ↦
            let e1 = ap (λ b. if b then grow else start) (sym other) ∙ e in
            let (a, joined, e2) = bind_ok (join_row (new_accumulator l h anchor) history q) _ e1 in
            let same : (complete ++ finish c ∷ [], some a) ≡ next = ok_injective e2 refl refl in
            ap state_weight (sym same)
            ∙ omega (
              arith,
              join_row-weight (new_accumulator l h anchor) a history q joined,
              total-append snapshot_weight complete (finish c ∷ []),
            )
      ]
    where
      grow : Result ExecutorError Restoring
      grow = do
        fail_if (not (c.head_txid == h)) data_corruption
        merged ← merge_anchor c.chain_anchor anchor
        a ← join_row (record c { chain_anchor = merged }) history q
        ok (complete, some a)

      start : Result ExecutorError Restoring
      start = do
        a ← join_row (new_accumulator l h anchor) history q
        ok (complete ++ finish c ∷ [], some a)

  restore_inflight_row-weight :
      (state next : Restoring) (r : WalletRequestRow)
      → restore_inflight_row state r ≡ ok next
      → state_weight next ≡ state_weight state + row_weight r
  unfolding restore_inflight_row row_weight
  restore_inflight_row-weight state next r e =
      let (l, has_lineage, e1) = bind_ok (ok_or r.lineage_id data_corruption) _ e in
      let (h, has_head, e2) = bind_ok (ok_or r.batch_txid data_corruption) _ e1 in
      let (_, e3) = then_ok (ensure_inflight_row_history_targets_head r.txid_history h) _ e2 in
      let (request, built, e4) = bind_ok (into_request r) _ e3 in
      let placed = place_row-weight state next l h r.chain_anchor r.txid_history _ e4 in
      let same = into_request_ok r request built in
      let own : row_weight r ≡ v l h r.txid_history r.dedupe_key r.payload r.created_at =
        ap (λ o. weight_of o r.batch_txid r) (ok_or_ok r.lineage_id data_corruption has_lineage)
        ∙ ap (λ o. weight_of (some l) o r) (ok_or_ok r.batch_txid data_corruption has_head) in
      omega
        (arith, placed, own, ap (λ q. v l h r.txid_history q.dedupe_key q.kind r.created_at) same)

  restore_inflight-weight :
      (rows : Table) (state final : Restoring)
      → restore_inflight rows state ≡ ok final
      → state_weight final ≡ state_weight state + total row_weight rows
  unfolding restore_inflight
  restore_inflight-weight [] state final e =
      ap state_weight (sym (ok_injective e refl refl)) ∙ omega arith
  restore_inflight-weight (r ∷ rs) state final e =
      let (next, own, rest) = bind_ok (restore_inflight_row state r) _ e in
      omega (
        arith,
        restore_inflight_row-weight state next r own,
        restore_inflight-weight rs next final rest,
      )

  finish_all-weight :
      (state : Restoring) → total snapshot_weight (finish_all state) ≡ state_weight state
  unfolding finish
  finish_all-weight (complete, none) = omega arith
  finish_all-weight (complete, some a) =
      omega (arith, total-append snapshot_weight complete (finish a ∷ []))

abbrev pub pending_weight :
    (String → WalletRequestKind → Option ChainAnchor → Timestamp → ℕ) → PendingWalletRequest → ℕ
pending_weight u q = u q.request.dedupe_key q.request.kind q.chain_anchor q.created_at

abbrev pub pending_row_weight :
    (String → WalletRequestKind → Option ChainAnchor → Timestamp → ℕ) → WalletRequestRow → ℕ
pending_row_weight u r = u r.dedupe_key r.payload r.chain_anchor r.created_at

restore_pending-weight :
    (u : String → WalletRequestKind → Option ChainAnchor → Timestamp → ℕ) (rows : Table)
    (requests : List PendingWalletRequest)
    → collect restore_pending_row rows ≡ ok requests
    → total (pending_weight u) requests ≡ total (pending_row_weight u) rows
unfolding restore_pending_row
restore_pending-weight u [] requests e =
    ap (total (pending_weight u)) (sym (ok_injective e refl refl))
restore_pending-weight u (r ∷ rs) requests e =
    let (q, own, e1) = bind_ok (restore_pending_row r) _ e in
    let (qs, rest, e2) = bind_ok (collect restore_pending_row rs) _ e1 in
    let (request, built, e3) = bind_ok (into_request r) _ own in
    let made : record {
      request = request;
      chain_anchor = r.chain_anchor;
      created_at = r.created_at;
    }
        ≡ q =
      ok_injective e3 refl refl in
    let all : (q ∷ qs) ≡ requests = ok_injective e2 refl refl in
    ap (total (pending_weight u)) (sym all)
    ∙ omega (
      arith,
      restore_pending-weight u rs qs rest,
      ap (pending_weight u) made,
      ap (λ x. u x.dedupe_key x.kind r.chain_anchor r.created_at) (into_request_ok r request built),
    )

-- If `restore` succeeds, the pending requests are exactly the requests of the scope's pending rows, each
-- with its anchor and time and as often; and the members of the live lineages are exactly the
-- requests of its inflight rows, each with its history and time, in the lineage that the row names,
-- and with the row's batch txid as that lineage's head.
pub restore_conserves :
    (scope : String) (t : Table) (s : RestoredWalletState)
    → restore scope t ≡ ok s
    → ((u : String → WalletRequestKind → Option ChainAnchor → Timestamp → ℕ)
        → total (pending_weight u) s.pending
          ≡ total (pending_row_weight u) (filter (in_scope scope pending) t))
      × ((v : Weight)
          → total (snapshot_weight v) s.inflight
            ≡ total (row_weight v) (filter (in_scope scope inflight) t))
unfolding restore
restore_conserves scope t s e =
    let waiting = filter (in_scope scope pending) t in
    let live = filter (in_scope scope inflight) t in
    let (requests, p, e1) =
      bind_ok (collect restore_pending_row (sort_by (λ r. r.dedupe_key) waiting)) _ e in
    let (state, i, e2) =
      bind_ok (restore_inflight (sort_by_lineage (sort_by (λ r. r.dedupe_key) live)) ([], none)) _
        e1 in
    let made : record { pending = requests; inflight = finish_all state } ≡ s =
      ok_injective e2 refl refl in
    (
      λ u.
          ap (λ x. total (pending_weight u) x.pending) (sym made)
          ∙ restore_pending-weight u (sort_by (λ r. r.dedupe_key) waiting) requests p
          ∙ total-sort_by (λ r. r.dedupe_key) (pending_row_weight u) waiting,
      λ v.
          ap (λ x. total (snapshot_weight v) x.inflight) (sym made)
          ∙ omega (
            arith,
            finish_all-weight v state,
            restore_inflight-weight v (sort_by_lineage (sort_by (λ r. r.dedupe_key) live))
                ([], none) state i,
            total-sort_by_lineage (row_weight v) (sort_by (λ r. r.dedupe_key) live),
            total-sort_by (λ r. r.dedupe_key) (row_weight v) live,
          ),
    )
