-- ===== src/Wallet/Runtime/Sweep.antt =====
-- The sweep over the live lineages loses no request.
use uni_pay.Prelude.{
  Bool-cases, List, Option-cases, Result, [], ap, arith, err, inl, inr, map, nat_eq, ok, refl, some,
  total, total-append, ℕ, ◌+◌, ◌==◌, ◌∙◌, ◌∷◌, ◌≡◌,
}
use uni_pay.Wallet.Runtime.Observe.{
  MissingHeadResolution, PendingLineageConfirmation, Sweep, WalletTxObserver, confirm_live,
  confirmed_sibling, get_lineage, insert_lineage, mempool_sibling, no_live_sibling, observe_ids,
  observe_lineage, observe_live_lineages, observer_error, record_missing_observation,
  remove_lineage, reset_missing_observations, resolve_missing,
}
use uni_pay.Wallet.Types.{
  ExecutorError, LineageId, LiveLineage, LiveLineageRequest, ObservedTxState, Txid,
  WalletRuntimeState, confirmed, in_mempool, missing,
}

module _ (w : LiveLineageRequest → ℕ) where
  abbrev pub lineage_weight : LiveLineage → ℕ
  lineage_weight l = total w l.requests

  -- The requests of the live lineages and of those that are queued as confirmed.
  abbrev pub sweep_weight : Sweep → ℕ
  sweep_weight (s, out) =
      total lineage_weight s.live_lineages
      + total (λ (c : PendingLineageConfirmation). lineage_weight c.lineage) out

  get_lineage-id :
      (id : LineageId) (ls : List LiveLineage) (l : LiveLineage)
      → get_lineage id ls ≡ some l
      → l.lineage_id ≡ id
  get_lineage-id id [] l e = cc
  get_lineage-id id (k ∷ ks) l e = elim (Bool-cases (k.lineage_id == id)) [
    | inl here ↦ ground arith
    | inr later ↦ get_lineage-id id ks l (ground arith)
  ]

  remove_lineage-weight :
      (id : LineageId) (ls : List LiveLineage) (l : LiveLineage)
      → get_lineage id ls ≡ some l
      → total lineage_weight (remove_lineage id ls) + lineage_weight l ≡ total lineage_weight ls
  remove_lineage-weight id [] l e = cc
  remove_lineage-weight id (k ∷ ks) l e = elim (Bool-cases (k.lineage_id == id)) [
    | inl here ↦ let same : k ≡ l = ground arith in rw (here, same) (omega arith)
    | inr later ↦ rw later (omega (arith, remove_lineage-weight id ks l (ground arith)))
  ]

  insert_lineage-weight :
      (ls : List LiveLineage) (l new : LiveLineage)
      → get_lineage new.lineage_id ls ≡ some l
      → total lineage_weight (insert_lineage new ls) + lineage_weight l
        ≡ total lineage_weight ls + lineage_weight new
  insert_lineage-weight [] l new e = cc
  insert_lineage-weight (k ∷ ks) l new e = elim (Bool-cases (k.lineage_id == new.lineage_id)) [
    | inl here ↦ let same : k ≡ l = ground arith in rw here (omega (arith, ap lineage_weight same))
    | inr later ↦ rw later (omega (arith, insert_lineage-weight ks l new (ground arith)))
  ]

  confirm_live-weight :
      (l : LiveLineage) (txid : Txid) (s : WalletRuntimeState)
      (out : List PendingLineageConfirmation)
      → get_lineage l.lineage_id s.live_lineages ≡ some l
      → sweep_weight (confirm_live l txid (s, out)) ≡ sweep_weight (s, out)
  unfolding reset_missing_observations
  confirm_live-weight l txid s out e = omega (
    arith,
    remove_lineage-weight l.lineage_id s.live_lineages l e,
    total-append (λ (c : PendingLineageConfirmation). lineage_weight c.lineage) out
        (record { lineage = l; confirmed_txid = txid } ∷ []),
  )

  resolve_missing-weight :
      (l : LiveLineage) (r : MissingHeadResolution) (s : WalletRuntimeState)
      (out : List PendingLineageConfirmation)
      → get_lineage l.lineage_id s.live_lineages ≡ some l
      → sweep_weight (resolve_missing l r (s, out)) ≡ sweep_weight (s, out)
  unfolding reset_missing_observations record_missing_observation
  resolve_missing-weight l (confirmed_sibling txid) s out e = confirm_live-weight l txid s out e
  resolve_missing-weight l (mempool_sibling txid utxos) s out e = omega (
    arith,
    insert_lineage-weight s.live_lineages l (record l { head_txid = txid; cover_utxos = utxos }) e,
  )
  resolve_missing-weight l no_live_sibling s out e = refl
  resolve_missing-weight l observer_error s out e = refl

  observe_lineage-weight :
      (o : WalletTxObserver) (l : LiveLineage) (s : WalletRuntimeState)
      (out : List PendingLineageConfirmation)
      → get_lineage l.lineage_id s.live_lineages ≡ some l
      → sweep_weight (observe_lineage o l (s, out)) ≡ sweep_weight (s, out)
  unfolding observe_lineage
  observe_lineage-weight o l s out e = answer (o.observe_tx l.head_txid) refl
    where
      answer :
          (a : Result ExecutorError ObservedTxState)
          → o.observe_tx l.head_txid ≡ a
          → sweep_weight (observe_lineage o l (s, out)) ≡ sweep_weight (s, out)
      answer (ok confirmed) a = rw (a, observe_lineage) (confirm_live-weight l l.head_txid s out e)
      answer (ok in_mempool) a = rw (a, observe_lineage)
      answer (ok missing) a = rw (a, observe_lineage) (resolve_missing-weight l _ s out e)
      answer (err x) a = rw (a, observe_lineage)

  observe_ids-weight :
      (o : WalletTxObserver) (ids : List LineageId) (s : WalletRuntimeState)
      (out : List PendingLineageConfirmation)
      → sweep_weight (observe_ids o ids (s, out)) ≡ sweep_weight (s, out)
  unfolding observe_ids
  observe_ids-weight o [] s out = refl
  observe_ids-weight o (id ∷ ids) s out = elim (Option-cases (get_lineage id s.live_lineages)) [
    | inl gone ↦ rw (gone, observe_ids) (observe_ids-weight o ids s out)
    | inr (l, e) ↦
        let own =
          ap (λ i. get_lineage i s.live_lineages) (get_lineage-id id s.live_lineages l e) ∙ e in
        let (s', out') = observe_lineage o l (s, out) in
        rw (e, observe_ids)
          (observe_ids-weight o ids s' out' ∙ observe_lineage-weight o l s out own)
  ]

  -- Whatever the observer answers, and in whatever order the lineages are visited, each request of a
  -- live lineage is afterwards in a live lineage or in a lineage that is queued as confirmed, as often
  -- as before.
  pub observe_live_lineages_conserves :
      (o : WalletTxObserver) (s : WalletRuntimeState)
      → sweep_weight (observe_live_lineages o s) ≡ total lineage_weight s.live_lineages
  unfolding observe_live_lineages
  observe_live_lineages_conserves o s =
      omega (arith, observe_ids-weight o (map (λ l. l.lineage_id) s.live_lineages) s [])
