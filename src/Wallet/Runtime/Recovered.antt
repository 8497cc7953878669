-- ===== src/Wallet/Runtime/Recovered.antt =====
-- What the recovery at startup, of wallet/runtime.rs, keeps.
use mathlib.Core.Path.{subst}
use uni_pay.Prelude.{
  All-every, IsUnique, List, Result, [], ap, arith, beq_ne_symm, bind_ok, contains, err, err_ok,
  false, map, nat_eq, none, ok, ok_injective, or_left, or_right, refl, sym, total, ℕ, ◌+◌, ◌==◌,
  ◌∙◌, ◌∷◌, ◌≡◌,
}
use uni_pay.SolverOrders.Unseen.{ids}
use uni_pay.Store.Examples.{waiting}
use uni_pay.Store.Revert.{restored}
use uni_pay.Wallet.Planner.Pins.{IsSplit}
use uni_pay.Wallet.Runtime.{from_requests}
use uni_pay.Wallet.Runtime.Buckets.{push_all-IsSplit, push_all-total}
use uni_pay.Wallet.Runtime.Observe.{
  PendingLineageConfirmation, Sweep, WalletTxObserver, get_lineage, load_funding_inputs_for_txid,
  probe_missing_head_resolution,
}
use uni_pay.Wallet.Runtime.Recover.{
  AreNew, Recovers, fresh_runtime, keep_live, keep_live-Recovers, queue_confirmed,
  queue_confirmed-Recovers, recover_lineages, recover_missing-Recovers, recover_observed,
  recover_wallet_runtime, restored_weight, with_inputs,
}
use uni_pay.Wallet.Runtime.Sweep.{lineage_weight, sweep_weight}
use uni_pay.Wallet.Types.{
  CoverUtxo, ExecutorError, LineageId, LiveLineage, LiveLineageRequest, LiveLineageSnapshot,
  ObservedTxState, PendingState, PendingWalletRequest, RestoredWalletState, WalletRuntimeState,
  confirmed, from_snapshot, in_mempool, missing,
}

module _ (w : LiveLineageRequest → ℕ) where
  with_inputs-Recovers :
      (r : Result ExecutorError (List CoverUtxo)) (l : LiveLineage) (k : LiveLineage → Sweep)
      (s : WalletRuntimeState) (out : List PendingLineageConfirmation) (next : Sweep)
      → with_inputs r l k ≡ ok next
      → ((utxos : List CoverUtxo)
          → Recovers w l.lineage_id
              (lineage_weight w l)
              (s, out)
              (k (record l { cover_utxos = utxos })))
      → Recovers w l.lineage_id (lineage_weight w l) (s, out) next
  with_inputs-Recovers (err e) l k s out next h f = absurd (err_ok e h)
  with_inputs-Recovers (ok utxos) l k s out next h f =
      subst (Recovers w l.lineage_id (lineage_weight w l) (s, out)) (ok_injective h refl refl)
        (f utxos)

  recover_observed-Recovers :
      (o : WalletTxObserver) (l : LiveLineage) (answer : Result ExecutorError ObservedTxState)
      (s : WalletRuntimeState) (out : List PendingLineageConfirmation) (next : Sweep)
      → get_lineage l.lineage_id s.live_lineages ≡ none
      → recover_observed o l answer (s, out) ≡ ok next
      → Recovers w l.lineage_id (lineage_weight w l) (s, out) next
  recover_observed-Recovers o l (ok confirmed) s out next n h =
      with_inputs-Recovers (load_funding_inputs_for_txid o l.head_txid l.chain_anchor) l
        (λ k. queue_confirmed k l.head_txid (s, out)) s out next h
        (λ utxos. queue_confirmed-Recovers w (record l { cover_utxos = utxos }) l.head_txid s out)
  recover_observed-Recovers o l (ok in_mempool) s out next n h =
      with_inputs-Recovers (load_funding_inputs_for_txid o l.head_txid l.chain_anchor) l
        (λ k. keep_live k (s, out)) s out next h
        (λ utxos. keep_live-Recovers w (record l { cover_utxos = utxos }) s out n)
  recover_observed-Recovers o l (ok missing) s out next n h =
      subst (Recovers w l.lineage_id (lineage_weight w l) (s, out)) (ok_injective h refl refl)
        (recover_missing-Recovers w l (probe_missing_head_resolution o l) s out n)
  recover_observed-Recovers o l (err e) s out next n h =
      subst (Recovers w l.lineage_id (lineage_weight w l) (s, out)) (ok_injective h refl refl)
        (keep_live-Recovers w l s out n)

  abbrev ids_of : List LiveLineageSnapshot → List LineageId
  ids_of = map (λ l. l.lineage_id)

  others_new :
      (id : LineageId) (ids : List LineageId) (s s' : WalletRuntimeState)
      → contains ids id ≡ false
      → ((other : LineageId)
          → (id == other) ≡ false
          → get_lineage other s'.live_lineages ≡ get_lineage other s.live_lineages)
      → AreNew w ids s
      → AreNew w ids s'
  others_new id [] s s' n same h = tt
  others_new id (k ∷ ks) s s' n same h = (
    same k (beq_ne_symm k id (or_left (k == id) (contains ks id) n)) ∙ h.0,
    others_new id ks s s' (or_right (k == id) (contains ks id) n) same h.1,
  )

  recover_lineages-weight :
      (o : WalletTxObserver) (snapshots : List LiveLineageSnapshot) (s : WalletRuntimeState)
      (out : List PendingLineageConfirmation) (final : Sweep)
      → IsUnique (ids_of snapshots)
      → AreNew w (ids_of snapshots) s
      → recover_lineages o snapshots (s, out) ≡ ok final
      → (sweep_weight w final ≡ sweep_weight w (s, out) + total (restored_weight w) snapshots)
        × (final.0.pending ≡ s.pending)
  unfolding recover_lineages from_snapshot
  recover_lineages-weight o [] s out final u n h =
      let same : (s, out) ≡ final = ok_injective h refl refl in
      (ap (sweep_weight w) (sym same) ∙ omega arith, ap (λ x. x.0.pending) (sym same))
  recover_lineages-weight o (l ∷ ls) s out final u n h =
      let (next, own, rest) =
        bind_ok (recover_observed o (from_snapshot l) (o.observe_tx l.head_txid) (s, out)) _ h in
      let (weight, waiting, others) =
        recover_observed-Recovers o (from_snapshot l) (o.observe_tx l.head_txid) s out next n.0
          own in
      let (total_weight, still) =
        recover_lineages-weight o ls next.0 next.1 final u.1
          (others_new l.lineage_id (ids_of ls) s next.0 u.0 others n.1) rest in
      (omega (arith, weight, total_weight), still ∙ waiting)

  all_new :
      (ids : List LineageId) (requests : List PendingWalletRequest) (height : ℕ)
      → AreNew w ids (fresh_runtime requests height)
  all_new ids requests height = All-every ids (λ id. refl)

  -- If the restored lineages have distinct ids and the recovery succeeds, then it loses and duplicates
  -- no request, whatever the observer answers: each request of a restored lineage is in a live lineage or
  -- in a lineage that is queued as confirmed, as often as before; the pending requests are exactly the
  -- restored ones, each with its anchor and time; and the buckets are split by anchor.
  pub recover_wallet_runtime_conserves :
      (o : WalletTxObserver) (restored : RestoredWalletState) (current_height : ℕ) (final : Sweep)
      → IsUnique (map (λ (l : LiveLineageSnapshot). l.lineage_id) restored.inflight)
      → recover_wallet_runtime o restored current_height ≡ ok final
      → (sweep_weight w final ≡ total (restored_weight w) restored.inflight)
        × ((u : PendingWalletRequest → ℕ)
            → total u final.0.pending.free + total u final.0.pending.anchored
              ≡ total u restored.pending)
        × IsSplit final.0.pending
  unfolding recover_wallet_runtime from_requests
  recover_wallet_runtime_conserves o restored current_height final u h =
      let empty : PendingState = record { free = []; anchored = [] } in
      let (weight, waiting) =
        recover_lineages-weight o restored.inflight (fresh_runtime restored.pending current_height)
          [] final u (all_new (ids_of restored.inflight) restored.pending current_height) h in
      (
        omega (arith, weight),
        λ v.
            ap (λ p. total v p.free + total v p.anchored) waiting
            ∙ omega (arith, push_all-total v restored.pending empty),
        subst IsSplit (sym waiting) (
            push_all-IsSplit restored.pending empty
              (record { free_of_anchor = tt; anchored = tt })),
      )
