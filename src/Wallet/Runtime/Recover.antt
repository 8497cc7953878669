-- ===== src/Wallet/Runtime/Recover.antt =====
-- `recover_wallet_runtime` and `from_restored` of wallet/runtime.rs, from the state that the store has
-- restored.
use uni_pay.Prelude.{
  All, Bool-cases, List, Result, [], ap, arith, eq_of_beq, err, false, if◌then◌else◌, inl, inr, map,
  nat_eq, none, ok, refl, some, some≢none, sym, total, total-append, ℕ, ◌++◌, ◌+◌, ◌==◌, ◌>>=◌, ◌∙◌,
  ◌∷◌, ◌≡◌,
}
use uni_pay.Store.Revert.{restored}
use uni_pay.Wallet.Runtime.{from_requests}
use uni_pay.Wallet.Runtime.Observe.{
  MissingHeadResolution, PendingLineageConfirmation, Sweep, WalletTxObserver, confirmed_sibling,
  get_lineage, insert_lineage, load_funding_inputs_for_txid, mempool_sibling, no_live_sibling,
  observer_error, probe_missing_head_resolution,
}
use uni_pay.Wallet.Runtime.Sweep.{lineage_weight, sweep_weight}
use uni_pay.Wallet.Types.{
  CoverUtxo, ExecutorError, LineageId, LiveLineage, LiveLineageRequest, LiveLineageSnapshot,
  ObservedTxState, PendingWalletRequest, RestoredWalletState, Txid, WalletRuntimeState, confirmed,
  from_snapshot, in_mempool, missing,
}

abbrev pub fresh_runtime : List PendingWalletRequest → ℕ → WalletRuntimeState
fresh_runtime requests current_height = record {
  live_lineages = [];
  pending = from_requests requests;
  missing_observations = [];
  current_height = current_height;
}

abbrev pub keep_live : LiveLineage → Sweep → Sweep
keep_live l (s, out) = (record s { live_lineages = insert_lineage l s.live_lineages }, out)

abbrev pub queue_confirmed : LiveLineage → Txid → Sweep → Sweep
queue_confirmed l txid (s, out) = (s, out ++ record { lineage = l; confirmed_txid = txid } ∷ [])

abbrev pub with_inputs :
    Result ExecutorError (List CoverUtxo)
    → LiveLineage
    → (LiveLineage → Sweep)
    → Result ExecutorError Sweep
with_inputs (err e) l k = err e
with_inputs (ok utxos) l k = ok (k (record l { cover_utxos = utxos }))

abbrev pub recover_missing : LiveLineage → MissingHeadResolution → Sweep → Sweep
recover_missing l (confirmed_sibling txid) sweep = queue_confirmed l txid sweep
recover_missing l (mempool_sibling txid utxos) sweep =
    keep_live (record l { head_txid = txid; cover_utxos = utxos }) sweep
recover_missing l no_live_sibling sweep = keep_live l sweep
recover_missing l observer_error sweep = keep_live l sweep

abbrev pub recover_observed :
    WalletTxObserver
    → LiveLineage
    → Result ExecutorError ObservedTxState
    → Sweep
    → Result ExecutorError Sweep
recover_observed o l (ok confirmed) sweep =
    with_inputs (load_funding_inputs_for_txid o l.head_txid l.chain_anchor) l
      (λ k. queue_confirmed k l.head_txid sweep)
recover_observed o l (ok in_mempool) sweep =
    with_inputs (load_funding_inputs_for_txid o l.head_txid l.chain_anchor) l
      (λ k. keep_live k sweep)
recover_observed o l (ok missing) sweep =
    ok (recover_missing l (probe_missing_head_resolution o l) sweep)
recover_observed o l (err _) sweep = ok (keep_live l sweep)

-- The loop over the restored lineages.
unfoldable pub recover_lineages :
    WalletTxObserver → List LiveLineageSnapshot → Sweep → Result ExecutorError Sweep
unfolding from_snapshot
recover_lineages o [] sweep = ok sweep
recover_lineages o (snapshot ∷ more) sweep =
    recover_observed o (from_snapshot snapshot) (o.observe_tx snapshot.head_txid) sweep >>= λ next.
    recover_lineages o more next

unfoldable pub recover_wallet_runtime :
    WalletTxObserver → RestoredWalletState → ℕ → Result ExecutorError Sweep
unfolding recover_lineages
recover_wallet_runtime o restored current_height =
    recover_lineages o restored.inflight (fresh_runtime restored.pending current_height, [])

abbrev pub insert_all : List LiveLineage → List LiveLineage → List LiveLineage
insert_all [] live = live
insert_all (l ∷ ls) live = insert_all ls (insert_lineage l live)

unfoldable pub from_restored : RestoredWalletState → ℕ → WalletRuntimeState
unfolding from_snapshot
from_restored restored current_height = record (fresh_runtime restored.pending current_height) {
  live_lineages = insert_all (map from_snapshot restored.inflight) [];
}

module _ (w : LiveLineageRequest → ℕ) where
  abbrev pub restored_weight : LiveLineageSnapshot → ℕ
  restored_weight l = total w l.requests

  get_insert :
      (ls : List LiveLineage) (l : LiveLineage) (id : LineageId)
      → (l.lineage_id == id) ≡ false
      → get_lineage id (insert_lineage l ls) ≡ get_lineage id ls
  get_insert [] l id n = rw n
  get_insert (k ∷ ks) l id n = elim (Bool-cases (k.lineage_id == l.lineage_id)) [
    | inl here ↦
        let other : (k.lineage_id == id) ≡ false =
          ap (λ x. x == id) (eq_of_beq k.lineage_id l.lineage_id here) ∙ n in
        rw (here, n, other)
    | inr later ↦ rw (later, get_insert ks l id n)
  ]

  insert_new :
      (ls : List LiveLineage) (l : LiveLineage)
      → get_lineage l.lineage_id ls ≡ none
      → total (lineage_weight w) (insert_lineage l ls)
        ≡ total (lineage_weight w) ls + lineage_weight w l
  insert_new [] l n = omega arith
  insert_new (k ∷ ks) l n = elim (Bool-cases (k.lineage_id == l.lineage_id)) [
    | inl here ↦
        absurd
          (some≢none (ap (λ b. if b then some k else get_lineage l.lineage_id ks) (sym here) ∙ n))
    | inr later ↦ rw later (
        omega (
          arith,
          insert_new ks l
              (ap (λ b. if b then some k else get_lineage l.lineage_id ks) (sym later) ∙ n),
        ))
  ]

  -- No live lineage has one of the ids.
  abbrev pub AreNew : List LineageId → WalletRuntimeState → Type 0
  AreNew ids s = All (λ id. get_lineage id s.live_lineages ≡ none) ids

  abbrev pub Recovers : LineageId → ℕ → Sweep → Sweep → Type 0
  Recovers id weight (s, out) (s', out') =
      (sweep_weight w (s', out') ≡ sweep_weight w (s, out) + weight)
      × (s'.pending ≡ s.pending)
      × ((other : LineageId)
          → (id == other) ≡ false
          → get_lineage other s'.live_lineages ≡ get_lineage other s.live_lineages)

  pub keep_live-Recovers :
      (l : LiveLineage) (s : WalletRuntimeState) (out : List PendingLineageConfirmation)
      → get_lineage l.lineage_id s.live_lineages ≡ none
      → Recovers l.lineage_id (lineage_weight w l) (s, out) (keep_live l (s, out))
  keep_live-Recovers l s out n = (
    omega (arith, insert_new s.live_lineages l n),
    refl,
    λ other apart. get_insert s.live_lineages l other apart,
  )

  pub queue_confirmed-Recovers :
      (l : LiveLineage) (txid : Txid) (s : WalletRuntimeState)
      (out : List PendingLineageConfirmation)
      → Recovers l.lineage_id (lineage_weight w l) (s, out) (queue_confirmed l txid (s, out))
  queue_confirmed-Recovers l txid s out = (
    omega (
      arith,
      total-append (λ (c : PendingLineageConfirmation). lineage_weight w c.lineage) out
          (record { lineage = l; confirmed_txid = txid } ∷ []),
    ),
    refl,
    λ other apart. refl,
  )

  pub recover_missing-Recovers :
      (l : LiveLineage) (m : MissingHeadResolution) (s : WalletRuntimeState)
      (out : List PendingLineageConfirmation)
      → get_lineage l.lineage_id s.live_lineages ≡ none
      → Recovers l.lineage_id (lineage_weight w l) (s, out) (recover_missing l m (s, out))
  recover_missing-Recovers l (confirmed_sibling txid) s out n =
      queue_confirmed-Recovers l txid s out
  recover_missing-Recovers l (mempool_sibling txid utxos) s out n =
      keep_live-Recovers (record l { head_txid = txid; cover_utxos = utxos }) s out n
  recover_missing-Recovers l no_live_sibling s out n = keep_live-Recovers l s out n
  recover_missing-Recovers l observer_error s out n = keep_live-Recovers l s out n
