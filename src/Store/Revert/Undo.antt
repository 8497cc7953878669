-- ===== src/Store/Revert/Undo.antt =====
-- `revert_broadcast` after `persist_broadcast`.
use mathlib.Core.Option
use mathlib.Core.Path.{subst}
use uni_pay.Prelude.{
  All, All-every, All-weaken, Bool-cases, List, Option-cases, Pairwise, String, [], ap, arith,
  beq_refl, contains, empty-contains, eq_of_beq, false, filter, filter-All, filter_congr, find,
  if◌then◌else◌, inl, inr, is_empty, length, length-map, map, none, not, ok, ok_or_ok, refl, some,
  string_eq, sym, true, true≢false, ◌&&◌, ◌++◌, ◌==◌, ◌||◌, ◌∙◌, ◌∷◌, ◌≡◌,
}
use uni_pay.Store.Checks.{left_in, right_in}
use uni_pay.Store.Operations.{broadcast_rows, is_rbf, snapshot_from_row, snapshots_of}
use uni_pay.Store.Plans.{
  BroadcastPersistencePlan, PersistedWalletRequestSnapshot, collect_plan_keys, snapshot_keys,
  sort_keys,
}
use uni_pay.Store.Revert.{restore_row, snapshot_of}
use uni_pay.Store.Revert.Restored.{
  IsRewrite, IsRewrite-refl, length-filter-IsRewrite, restore-IsRewrite, update_rows-IsRewrite,
}
use uni_pay.Store.Revert.Sorted.{
  contains-sort_by, find-sort_by, has_duplicate-sort_by, length-sort_by,
}
use uni_pay.Store.Rows.{
  Table, WalletRequestRow, get_row, has_duplicate, is_selected, keys_of, to_inflight, to_pending,
  update_rows_to_inflight, update_rows_to_pending,
}
use uni_pay.Wallet.Types.{data_corruption}

names-snapshots : (rows : Table) → snapshot_keys (map snapshot_from_row rows) ≡ keys_of rows
unfolding snapshot_from_row
names-snapshots [] = refl
names-snapshots (r ∷ rs) = ap (λ ks. r.dedupe_key ∷ ks) (names-snapshots rs)

find-snapshots :
    (k : String) (rows : Table)
    → snapshot_of (map snapshot_from_row rows) k
      ≡ Option.map snapshot_from_row (find (λ r. r.dedupe_key == k) rows)
unfolding snapshot_from_row
find-snapshots k [] = refl
find-snapshots k (r ∷ rs) = elim (Bool-cases (r.dedupe_key == k)) [
  | inl here ↦ rw here
  | inr there ↦ rw (there, find-snapshots k rs)
]

find-contains :
    (k : String) (rows : Table) (x : WalletRequestRow)
    → find (λ r. r.dedupe_key == k) rows ≡ some x
    → contains (keys_of rows) k ≡ true
find-contains k [] x e = cc
find-contains k (r ∷ rs) x e = elim (Bool-cases (r.dedupe_key == k)) [
  | inl here ↦ rw here
  | inr there ↦ rw there (
      find-contains k rs x
        (ap (λ b. if b then some r else find (λ y. y.dedupe_key == k) rs) (sym there) ∙ e))
]

keys_of-All :
    (keys : List String) (rows : Table) (k : String)
    → All (λ x. contains keys x.dedupe_key ≡ true) rows
    → contains (keys_of rows) k ≡ true
    → contains keys k ≡ true
keys_of-All keys [] k h c = cc
keys_of-All keys (r ∷ rs) k h c = elim (Bool-cases (r.dedupe_key == k)) [
  | inl here ↦ ap (contains keys) (sym (eq_of_beq r.dedupe_key k here)) ∙ h.0
  | inr there ↦ keys_of-All keys rs k h.1 (ap (λ b. b || contains (keys_of rs) k) (sym there) ∙ c)
]

module _ (scope : String) (p : BroadcastPersistencePlan) (t : Table) where
  abbrev keys : List String
  keys = collect_plan_keys p

  -- The rows that the statements of a broadcast select are those of the plan's keys.
  broadcast_rows-IsRewrite : Pairwise (IsRewrite scope keys) t (broadcast_rows scope p t)
  unfolding broadcast_rows update_rows_to_inflight update_rows_to_pending collect_plan_keys
  broadcast_rows-IsRewrite =
      let moved =
        update_rows-IsRewrite scope keys p.included_request_keys (to_inflight p.lineage_id p.txid) t
          t (λ r. (refl, refl, refl, refl)) (left_in p.included_request_keys p.dropped_request_keys)
          (IsRewrite-refl scope keys t) in
      elim (Bool-cases (is_rbf p.kind && not (is_empty p.dropped_request_keys))) [
        | inl both ↦ rw both (
            update_rows-IsRewrite scope keys p.dropped_request_keys to_pending t _
              (λ r. (refl, refl, refl, refl))
              (right_in p.included_request_keys p.dropped_request_keys) moved)
        | inr one ↦ rw one moved
      ]

  pub keys_nonempty : is_empty p.included_request_keys ≡ false → is_empty keys ≡ false
  unfolding collect_plan_keys
  keys_nonempty n = elim (Bool-cases (is_empty keys)) [
    | inl none_of ↦ absurd (clash p.included_request_keys p.dropped_request_keys n none_of)
    | inr some_of ↦ some_of
  ]
    where
      clash :
          (xs ys : List String) → is_empty xs ≡ false → is_empty (sort_keys (xs ++ ys)) ≡ true → ⊥
      clash [] ys n e = true≢false n
      clash (x ∷ xs) ys n e = true≢false (
          sym (left_in (x ∷ xs) ys x (ap (λ b. b || contains xs x) (beq_refl x)))
          ∙ empty-contains (sort_keys (x ∷ xs ++ ys)) x e)

  module _ (rows : Table) (chosen : filter (is_selected scope keys) t ≡ rows)
      (distinct : has_duplicate (keys_of rows) ≡ false)
      (found : All
        (λ r. is_selected scope keys r ≡ true → get_row rows r.dedupe_key ≡ ok r)
        t) where
    abbrev snapshots : List PersistedWalletRequestSnapshot
    snapshots = snapshots_of rows

    pub keys-snapshots :
        (k : String) → contains (snapshot_keys snapshots) k ≡ contains (keys_of rows) k
    keys-snapshots k =
        contains-sort_by (λ s. s.dedupe_key) k (map snapshot_from_row rows)
        ∙ ap (λ ks. contains ks k) (names-snapshots rows)

    pub distinct-snapshots : has_duplicate (snapshot_keys snapshots) ≡ false
    distinct-snapshots =
        has_duplicate-sort_by (λ s. s.dedupe_key) (map snapshot_from_row rows)
          (ap (λ ks. has_duplicate ks) (names-snapshots rows) ∙ distinct)

    snapshot_of-snapshots :
        (k : String)
        → snapshot_of snapshots k
          ≡ Option.map snapshot_from_row (find (λ r. r.dedupe_key == k) rows)
    snapshot_of-snapshots k =
        find-sort_by (λ s. s.dedupe_key) k (map snapshot_from_row rows)
          (ap (λ ks. has_duplicate ks) (names-snapshots rows) ∙ distinct)
        ∙ find-snapshots k rows

    rows-selected : (k : String) → contains (keys_of rows) k ≡ true → contains keys k ≡ true
    rows-selected k = keys_of-All keys rows k (
        subst (All (λ x. contains keys x.dedupe_key ≡ true)) chosen (
          unfold is_selected in
          All-weaken (filter (is_selected scope keys) t) (λ x h. ground arith)
            (filter-All (is_selected scope keys) t)))

    selected_found :
        (r : WalletRequestRow)
        → (is_selected scope keys r ≡ true → get_row rows r.dedupe_key ≡ ok r)
        → is_selected scope keys r ≡ true
        → find (λ x. x.dedupe_key == r.dedupe_key) rows ≡ some r
    unfolding get_row
    selected_found r own picked =
        ok_or_ok (find (λ x. x.dedupe_key == r.dedupe_key) rows) data_corruption (own picked)

    unselected_absent :
        (r : WalletRequestRow)
        → (r.scope == scope) ≡ true
        → is_selected scope keys r ≡ false
        → find (λ x. x.dedupe_key == r.dedupe_key) rows ≡ none
    unfolding is_selected
    unselected_absent r inside other =
        elim (Option-cases (find (λ x. x.dedupe_key == r.dedupe_key) rows)) [
          | inl n ↦ n
          | inr (x, e) ↦
              let more = rows-selected r.dedupe_key (find-contains r.dedupe_key rows x e) in
              absurd (ground arith)
        ]

    -- The statements of the revert select the same rows as those of the broadcast.
    same_selection :
        All (λ r. is_selected scope (snapshot_keys snapshots) r ≡ is_selected scope keys r) t
    unfolding is_selected
    same_selection =
        All-weaken t
          (λ r own. elim (Bool-cases (is_selected scope keys r)) [
            | inl picked ↦
                let there =
                  keys-snapshots r.dedupe_key
                  ∙ find-contains r.dedupe_key rows r (selected_found r own picked) in
                ground arith
            | inr other ↦ elim (Bool-cases (contains (keys_of rows) r.dedupe_key)) [
              | inl there ↦ let more = rows-selected r.dedupe_key there in ground arith
              | inr gone ↦ let same = keys-snapshots r.dedupe_key ∙ gone in ground arith
            ]
          ])
          found

    pub undone : map (restore_row scope snapshots) (broadcast_rows scope p t) ≡ t
    undone =
        restore-IsRewrite scope keys snapshots t (broadcast_rows scope p t) distinct-snapshots
          (All-weaken t
            (λ r own picked.
              snapshot_of-snapshots r.dedupe_key
              ∙ ap (Option.map snapshot_from_row) (selected_found r own picked))
            found)
          (All-every t (λ r inside other.
            snapshot_of-snapshots r.dedupe_key
            ∙ ap (Option.map snapshot_from_row) (unselected_absent r inside other)))
          broadcast_rows-IsRewrite

    pub loaded_again :
        length (filter (is_selected scope (snapshot_keys snapshots)) (broadcast_rows scope p t))
        ≡ length (snapshot_keys snapshots)
    loaded_again =
        length-filter-IsRewrite scope keys (snapshot_keys snapshots) t (broadcast_rows scope p t)
          broadcast_rows-IsRewrite
        ∙ ap length (
            filter_congr (is_selected scope (snapshot_keys snapshots)) (is_selected scope keys) t
              same_selection
            ∙ chosen)
        ∙ sym (
            length-map (λ s. s.dedupe_key) snapshots
            ∙ length-sort_by (λ s. s.dedupe_key) (map snapshot_from_row rows)
            ∙ length-map snapshot_from_row rows)
