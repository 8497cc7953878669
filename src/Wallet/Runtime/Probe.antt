-- ===== src/Wallet/Runtime/Probe.antt =====
-- What the search for a surviving sibling finds.
use uni_pay.Prelude.{
  All, Bool, List, Option, Result, [], ap, err, false, filter, inl, inr, nat_eq, not, ok, refl,
  reverse, sym, true, ◌++◌, ◌==◌, ◌∙◌, ◌∷◌, ◌≡◌, ◌⊎◌,
}
use uni_pay.Wallet.Runtime.Observe.{
  MissingHeadResolution, WalletTxObserver, adopt_sibling, confirmed_sibling,
  load_funding_inputs_for_txid, mempool_sibling, no_live_sibling, observer_error,
  probe_missing_head_resolution, probe_siblings, siblings,
}
use uni_pay.Wallet.Types.{
  ChainAnchor, CoverUtxo, ExecutorError, LiveLineage, ObservedTxState, Txid, confirmed, in_mempool,
  missing,
}

module _ (o : WalletTxObserver) (anchor : Option ChainAnchor) where
  abbrev pub IsUnseen : Txid → Type 0
  IsUnseen t = (o.observe_tx t ≡ ok missing) ⊎ ((e : ExecutorError) × (o.observe_tx t ≡ err e))

  -- `t` stands in the list, and no answer for a newer txid decided the search.
  abbrev pub IsNewest : Txid → List Txid → Type 0
  IsNewest t txids =
      (newer : List Txid) × (older : List Txid) × (txids ≡ newer ++ t ∷ older) × All IsUnseen newer

  -- Some question was not answered.
  abbrev pub HasFault : List Txid → Type 0
  HasFault [] = ⊥
  HasFault (t ∷ ts) =
      ((e : ExecutorError) × (o.observe_tx t ≡ err e))
      ⊎ ((e : ExecutorError) × (load_funding_inputs_for_txid o t anchor ≡ err e))
      ⊎ HasFault ts

  abbrev pub Explains : List Txid → Bool → MissingHeadResolution → Type 0
  Explains txids saw_error (confirmed_sibling t) =
      IsNewest t txids × (o.observe_tx t ≡ ok confirmed)
  Explains txids saw_error (mempool_sibling t utxos) =
      IsNewest t txids
      × (o.observe_tx t ≡ ok in_mempool)
      × (load_funding_inputs_for_txid o t anchor ≡ ok utxos)
  Explains txids saw_error no_live_sibling =
      (saw_error ≡ false) × All (λ t. o.observe_tx t ≡ ok missing) txids
  Explains txids saw_error observer_error = (saw_error ≡ true) ⊎ HasFault txids

  Explains-cons :
      (t : Txid) (ts : List Txid) (saw_error flag : Bool) (r : MissingHeadResolution)
      → ((o.observe_tx t ≡ ok missing) × (flag ≡ saw_error))
        ⊎ ((e : ExecutorError) × (o.observe_tx t ≡ err e) × (flag ≡ true))
      → Explains ts flag r
      → Explains (t ∷ ts) saw_error r
  Explains-cons t ts saw_error flag (confirmed_sibling u) c ((newer, older, e, unseen), seen) =
      ((t ∷ newer, older, ap (λ l. t ∷ l) e, (skipped c, unseen)), seen)
    where
      skipped :
          ((o.observe_tx t ≡ ok missing) × (flag ≡ saw_error))
            ⊎ ((e : ExecutorError) × (o.observe_tx t ≡ err e) × (flag ≡ true))
          → IsUnseen t
      skipped (inl m) = inl m.0
      skipped (inr m) = inr (m.0, m.1)
  Explains-cons t ts saw_error flag (mempool_sibling u us) c
        ((newer, older, e, unseen), seen, funded) =
      ((t ∷ newer, older, ap (λ l. t ∷ l) e, (skipped c, unseen)), seen, funded)
    where
      skipped :
          ((o.observe_tx t ≡ ok missing) × (flag ≡ saw_error))
            ⊎ ((e : ExecutorError) × (o.observe_tx t ≡ err e) × (flag ≡ true))
          → IsUnseen t
      skipped (inl m) = inl m.0
      skipped (inr m) = inr (m.0, m.1)
  Explains-cons t ts saw_error flag no_live_sibling (inl (m, same)) (clear, all_missing) =
      (sym same ∙ clear, (m, all_missing))
  Explains-cons t ts saw_error flag no_live_sibling (inr (e, m, raised)) (clear, all_missing) = cc
  Explains-cons t ts saw_error flag observer_error (inl (m, same)) (inl raised) =
      inl (sym same ∙ raised)
  Explains-cons t ts saw_error flag observer_error (inl (m, same)) (inr fault) =
      inr (inr (inr fault))
  Explains-cons t ts saw_error flag observer_error (inr (e, m, raised)) h = inr (inl (e, m))

  -- The answer for one txid, and the search after it.
  probe_siblings_cases :
      (t : Txid) (ts : List Txid) (saw_error : Bool)
      → let result = probe_siblings o anchor (t ∷ ts) saw_error in
        ((o.observe_tx t ≡ ok confirmed) × (result ≡ confirmed_sibling t))
        ⊎ ((o.observe_tx t ≡ ok in_mempool)
            × (result ≡ adopt_sibling t (load_funding_inputs_for_txid o t anchor)))
        ⊎ ((o.observe_tx t ≡ ok missing) × (result ≡ probe_siblings o anchor ts saw_error))
        ⊎ ((e : ExecutorError) × (o.observe_tx t ≡ err e)
            × (result ≡ probe_siblings o anchor ts true))
  unfolding probe_siblings
  probe_siblings_cases t ts saw_error = answer (o.observe_tx t) refl
    where
      answer :
          (a : Result ExecutorError ObservedTxState)
          → o.observe_tx t ≡ a
          → let result = probe_siblings o anchor (t ∷ ts) saw_error in
            ((o.observe_tx t ≡ ok confirmed) × (result ≡ confirmed_sibling t))
            ⊎ ((o.observe_tx t ≡ ok in_mempool)
                × (result ≡ adopt_sibling t (load_funding_inputs_for_txid o t anchor)))
            ⊎ ((o.observe_tx t ≡ ok missing) × (result ≡ probe_siblings o anchor ts saw_error))
            ⊎ ((e : ExecutorError) × (o.observe_tx t ≡ err e)
                × (result ≡ probe_siblings o anchor ts true))
      answer (ok confirmed) e = inl (e, rw (e, probe_siblings))
      answer (ok in_mempool) e = inr (inl (e, rw (e, probe_siblings)))
      answer (ok missing) e = inr (inr (inl (e, rw (e, probe_siblings))))
      answer (err x) e = inr (inr (inr (x, e, rw (e, probe_siblings))))

  adopt-Explains :
      (t : Txid) (ts : List Txid) (saw_error : Bool) (r : Result ExecutorError (List CoverUtxo))
      → o.observe_tx t ≡ ok in_mempool
      → load_funding_inputs_for_txid o t anchor ≡ r
      → Explains (t ∷ ts) saw_error (adopt_sibling t r)
  adopt-Explains t ts saw_error (ok utxos) seen e = (([], ts, refl, tt), seen, e)
  adopt-Explains t ts saw_error (err x) seen e = inr (inr (inl (x, e)))

  probe_siblings-Explains :
      (txids : List Txid) (saw_error : Bool)
      → Explains txids saw_error (probe_siblings o anchor txids saw_error)
  probe_siblings-Explains [] true = unfold probe_siblings in inl refl
  probe_siblings-Explains [] false = unfold probe_siblings in (refl, tt)
  probe_siblings-Explains (t ∷ ts) saw_error = elim (probe_siblings_cases t ts saw_error) [
    | inl (seen, e) ↦ rw e (([], ts, refl, tt), seen)
    | inr (inl (seen, e)) ↦ rw e (adopt-Explains t ts saw_error _ seen refl)
    | inr (inr (inl (m, e))) ↦ rw e (
        Explains-cons t ts saw_error saw_error _ (inl (m, refl))
          (probe_siblings-Explains ts saw_error))
    | inr (inr (inr (x, m, e))) ↦
        rw e
          (Explains-cons t ts saw_error true _ (inr (x, m, refl)) (probe_siblings-Explains ts true))
  ]

-- The search over the other txids of a lineage, newest first: a confirmed or an adopted sibling is the
-- newest one that the chain knows (every newer one was missing or unanswered), an adopted one comes
-- with its funding inputs; "no live sibling" is reported only if every sibling was answered as
-- missing; and an observer error only if some question failed.
pub probe_missing_head_resolution-Explains :
    (o : WalletTxObserver) (l : LiveLineage)
    → Explains o l.chain_anchor
        (filter (λ txid. not (txid == l.head_txid)) (reverse l.all_txids))
        false
        (probe_missing_head_resolution o l)
unfolding probe_missing_head_resolution
probe_missing_head_resolution-Explains o l =
    probe_siblings-Explains o l.chain_anchor (siblings l) false
