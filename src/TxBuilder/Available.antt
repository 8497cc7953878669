-- ===== src/TxBuilder/Available.antt =====
-- The candidates and the selected inputs of tx_builder/cover_utxo.rs.
use mathlib.Core.Path.{subst}
use uni_pay.EvmWatcher.BlockRange.Covered.{covers}
use uni_pay.Prelude.{
  All, All-append, All-filter, All-weaken, All-zip, Bool, List, Result, [], ap, append-nil, arith,
  beq_refl, bind_ok, contains, false, filter, filter-All, if◌then◌else◌, inl, inr, is_some, length,
  length-append, map, none, not, not-true, ok, ok_injective, ok_or, or_true, refl, some, sym, true,
  ◌++◌, ◌-◌, ◌==◌, ◌||◌, ◌∙◌, ◌∷◌, ◌≡◌, ◌⊎◌,
}
use uni_pay.TxBuilder.{TxBuilderError, client}
use uni_pay.TxBuilder.Cover.{
  BitcoinCoverUtxoProvider, Utxo, add, available, available_from, drop, last_utxo, merge_missing,
  new, outpoints, own_utxos, selected_cover_utxos, selected_lineage_prevout, splice, take, to_cover,
}
use uni_pay.Wallet.Types.{CoverUtxo, OutPoint, ScriptBuf, outpoint_eq}

take-append : (us vs : List CoverUtxo) → take (length us) (us ++ vs) ≡ us
take-append [] vs = refl
take-append (u ∷ us) vs = ap (λ l. u ∷ l) (take-append us vs)

drop-append : (us vs : List CoverUtxo) → drop (length us) (us ++ vs) ≡ vs
drop-append [] vs = refl
drop-append (u ∷ us) vs = drop-append us vs

length-snoc : (us : List CoverUtxo) (u : CoverUtxo) → length (us ++ u ∷ []) - 1 ≡ length us
length-snoc us u = omega (arith, length-append us (u ∷ []))

last_utxo-snoc : (us : List CoverUtxo) (u : CoverUtxo) → last_utxo (us ++ u ∷ []) ≡ some u
last_utxo-snoc [] u = refl
last_utxo-snoc (v ∷ []) u = refl
last_utxo-snoc (v ∷ w ∷ ws) u = last_utxo-snoc (w ∷ ws) u

append_assoc : (us vs ws : List CoverUtxo) → (us ++ (vs ++ ws)) ≡ ((us ++ vs) ++ ws)
append_assoc [] vs ws = refl
append_assoc (u ∷ us) vs ws = ap (λ l. u ∷ l) (append_assoc us vs ws)

-- A provider with a lineage: its output is the last selected input, after the others.
abbrev pub EndsWith : List CoverUtxo → CoverUtxo → BitcoinCoverUtxoProvider → Type 0
EndsWith covers u p = (p.selected ≡ covers ++ u ∷ []) × (p.lineage_prevout ≡ some u.outpoint)

splice-snoc :
    (covers vs : List CoverUtxo) (u : CoverUtxo)
    → splice (length (covers ++ u ∷ []) - 1) vs (covers ++ u ∷ []) ≡ (covers ++ vs) ++ u ∷ []
splice-snoc covers vs u =
    ap (λ n. splice n vs (covers ++ u ∷ [])) (length-snoc covers u)
    ∙ ap (λ l. l ++ vs ++ drop (length covers) (covers ++ u ∷ [])) (take-append covers (u ∷ []))
    ∙ ap (λ l. covers ++ vs ++ l) (drop-append covers (u ∷ []))

add-EndsWith :
    (p : BitcoinCoverUtxoProvider) (covers us : List CoverUtxo) (u : CoverUtxo)
    → EndsWith covers u p
    → EndsWith (covers ++ us) u (add us p)
unfolding add
add-EndsWith p covers us u (e, l) = (
  ap (λ o. if is_some o then splice (length p.selected - 1) us p.selected else p.selected ++ us) l
      ∙ ap (λ s. splice (length s - 1) us s) e
      ∙ splice-snoc covers us u,
  l,
)

new-EndsWith :
    (script : ScriptBuf) (electrs : Result TxBuilderError (List Utxo)) (carried : List CoverUtxo)
    (u : CoverUtxo) (ignored : List OutPoint)
    → EndsWith carried u (new script electrs carried (some u) ignored)
unfolding new
new-EndsWith script electrs carried u ignored = (refl, refl)

abbrev pub add_each : List (List CoverUtxo) → BitcoinCoverUtxoProvider → BitcoinCoverUtxoProvider
add_each [] p = p
add_each (us ∷ more) p = add_each more (add us p)

abbrev pub flat : List (List CoverUtxo) → List CoverUtxo
flat [] = []
flat (us ∷ more) = us ++ flat more

add_each-EndsWith :
    (batches : List (List CoverUtxo)) (p : BitcoinCoverUtxoProvider) (covers : List CoverUtxo)
    (u : CoverUtxo)
    → EndsWith covers u p
    → EndsWith (covers ++ flat batches) u (add_each batches p)
add_each-EndsWith [] p covers u h = subst (λ c. EndsWith c u p) (sym (append-nil covers)) h
add_each-EndsWith (us ∷ more) p covers u h =
    subst (λ c. EndsWith c u (add_each more (add us p))) (sym (append_assoc covers us (flat more)))
      (add_each-EndsWith more (add us p) (covers ++ us) u (add-EndsWith p covers us u h))

read-EndsWith :
    (p : BitcoinCoverUtxoProvider) (covers : List CoverUtxo) (u : CoverUtxo)
    → EndsWith covers u p
    → (selected_lineage_prevout p ≡ some u) × (selected_cover_utxos p ≡ covers)
unfolding selected_lineage_prevout selected_cover_utxos
read-EndsWith p covers u (e, l) = (
  ap (λ o. if is_some o then last_utxo p.selected else none) l
      ∙ ap last_utxo e
      ∙ last_utxo-snoc covers u,
  ap (λ o. if is_some o then take (length p.selected - 1) p.selected else p.selected) l
      ∙ ap (λ s. take (length s - 1) s) e
      ∙ ap (λ n. take n (covers ++ u ∷ [])) (length-snoc covers u)
      ∙ take-append covers (u ∷ []),
)

-- However often inputs are added to a provider that was made with a lineage output, that output stays
-- the selected lineage input, last of all, and the cover inputs are the carried ones and then the added
-- ones, in order.
pub add_each-new :
    (script : ScriptBuf) (electrs : Result TxBuilderError (List Utxo)) (carried : List CoverUtxo)
    (u : CoverUtxo) (ignored : List OutPoint) (batches : List (List CoverUtxo))
    → let p = add_each batches (new script electrs carried (some u) ignored) in
      (selected_lineage_prevout p ≡ some u) × (selected_cover_utxos p ≡ carried ++ flat batches)
add_each-new script electrs carried u ignored batches =
    let start = new script electrs carried (some u) ignored in
    read-EndsWith (add_each batches start) (carried ++ flat batches) u
      (add_each-EndsWith batches start carried u (new-EndsWith script electrs carried u ignored))

-- Where a candidate may come from.
abbrev pub IsOwned : BitcoinCoverUtxoProvider → CoverUtxo → Type 0
IsOwned p u =
    (contains p.ignored_outpoints u.outpoint ≡ false)
    ⊎ (contains (outpoints p.must_include) u.outpoint ≡ true)

merge_missing-IsOwned :
    (p : BitcoinCoverUtxoProvider) (all_utxos us : List CoverUtxo)
    → All (IsOwned p) all_utxos
    → All (IsOwned p) us
    → All (IsOwned p) (merge_missing all_utxos us)
unfolding merge_missing
merge_missing-IsOwned p all_utxos [] h k = h
merge_missing-IsOwned p all_utxos (u ∷ us) h k =
    merge_missing-IsOwned p
      (if contains (outpoints all_utxos) u.outpoint then all_utxos else all_utxos ++ u ∷ []) us
      (merged (contains (outpoints all_utxos) u.outpoint)) k.1
  where
    merged : (b : Bool) → All (IsOwned p) (if b then all_utxos else all_utxos ++ u ∷ [])
    merged true = h
    merged false = All-append (IsOwned p) all_utxos (u ∷ []) h (k.0, tt)

All-included :
    (us more : List CoverUtxo)
    → ((k : OutPoint) → contains (outpoints us) k ≡ true → contains (outpoints more) k ≡ true)
    → All (λ u. contains (outpoints more) u.outpoint ≡ true) us
All-included [] more f = tt
All-included (u ∷ us) more f = (
  f u.outpoint (ap (λ b. b || contains (outpoints us) u.outpoint) (beq_refl u.outpoint)),
  All-included us more (λ k h. f k (ap (λ b. u.outpoint == k || b) h ∙ or_true (u.outpoint == k))),
)

-- Every candidate is new to the transaction: not one of its inputs, and not selected already; and
-- it is not reserved for another batch, unless it must be included.
pub available-IsNew :
    (p : BitcoinCoverUtxoProvider) (inputs : List OutPoint) (us : List CoverUtxo)
    → available p inputs ≡ ok us
    → All
        (λ u.
          (contains inputs u.outpoint ≡ false)
          × (contains (outpoints p.selected) u.outpoint ≡ false)
          × IsOwned p u)
        us
unfolding available
available-IsNew p inputs us e =
    let (answer, _, e1) = bind_ok (ok_or p.electrs client) _ e in
    let (electrs, _, e2) = bind_ok answer _ e1 in
    let same : available_from p inputs electrs ≡ us = ok_injective e2 refl refl in
    let merged = merge_missing (own_utxos p electrs) p.must_include in
    let owned : All (IsOwned p) merged =
      merge_missing-IsOwned p (own_utxos p electrs) p.must_include
        (All-weaken (own_utxos p electrs)
          (λ u h. inl (not-true (contains p.ignored_outpoints u.outpoint) h))
          (filter-All (λ u. not (contains p.ignored_outpoints u.outpoint))
            (map (to_cover p.script_pubkey) electrs)))
        (All-weaken p.must_include (λ u h. inr h)
          (All-included p.must_include p.must_include (λ k h. h))) in
    let unused = filter (λ u. not (contains inputs u.outpoint)) merged in
    subst
      (All (λ u.
        (contains inputs u.outpoint ≡ false)
        × (contains (outpoints p.selected) u.outpoint ≡ false)
        × IsOwned p u))
      same
      (All-zip (available_from p inputs electrs)
        (λ u a b. (b.0, not-true (contains (outpoints p.selected) u.outpoint) a, b.1))
        (filter-All (λ u. not (contains (outpoints p.selected) u.outpoint)) unused)
        (All-filter (λ u. (contains inputs u.outpoint ≡ false) × IsOwned p u)
          (λ u. not (contains (outpoints p.selected) u.outpoint)) unused
          (All-zip unused (λ u a b. (not-true (contains inputs u.outpoint) a, b))
            (filter-All (λ u. not (contains inputs u.outpoint)) merged)
            (All-filter (IsOwned p) (λ u. not (contains inputs u.outpoint)) merged owned))))
