-- ===== src/Wallet/Confirm/Partition.antt =====
-- The split of a lineage's requests, and the anchor, of wallet/confirm.rs.
use mathlib.Core.Path.{subst}
use uni_pay.Prelude.{
  All, All-weaken, Bool-cases, List, [], ap, arith, contains, err, filter, get_elem?, inl, inr,
  length, map, nat_eq, not, ok, refl, some, suc, sym, true, ℕ, ◌+◌, ◌∙◌, ◌∷◌, ◌≡◌, ◌≢◌, ◌⊎◌,
}
use uni_pay.Wallet.Confirm.{
  HexDecode, anchor_from, extract_chain_anchor, own_outputs, own_script, split_by_history,
}
use uni_pay.Wallet.Types.{
  ChainAnchor, EsploraTx, LiveLineageRequest, ScriptBuf, TxVout, Txid, validation_failed,
}

-- Both parts in order: the requests with the txid in their history, and the others.
pub split_by_history_lem :
    (txid : Txid) (rs : List LiveLineageRequest)
    → split_by_history txid rs ≡ (
      map (λ r. r.request) (filter (λ r. contains r.txid_history txid) rs),
      map (λ r. r.request) (filter (λ r. not (contains r.txid_history txid)) rs),
    )
unfolding split_by_history
split_by_history_lem txid [] = refl
split_by_history_lem txid (r ∷ rs) = elim (Bool-cases (contains r.txid_history txid)) [
  | inl kept ↦ rw (kept, split_by_history_lem txid rs)
  | inr lost ↦ rw (lost, split_by_history_lem txid rs)
]

-- An index, counted from a first one, and a value that stand for an output of the wallet.
abbrev IsOwn : HexDecode → ScriptBuf → ℕ → List TxVout → ℕ × ℕ → Type 0
IsOwn decode script first os p =
    (i : ℕ) × (o : TxVout) × (p.0 ≡ first + i)
    × (get_elem? os i ≡ some o)
    × (p.1 ≡ o.value)
    × (own_script decode script o ≡ true)

own_outputs_sound :
    (decode : HexDecode) (script : ScriptBuf) (first : ℕ) (os : List TxVout)
    → All (IsOwn decode script first os) (own_outputs decode script first os)
unfolding own_outputs
own_outputs_sound decode script first [] = tt
own_outputs_sound decode script first (o ∷ os) =
    let later =
      All-weaken (own_outputs decode script (first + 1) os)
        (λ p h. let (i, o', a, b, c, d) = h in (suc i, o', omega (arith, a), b, c, d))
        (own_outputs_sound decode script (first + 1) os) in
    elim (Bool-cases (own_script decode script o)) [
      | inl own ↦ rw own ((0, o, omega arith, refl, refl, own), later)
      | inr other ↦ rw other later
    ]

own_outputs-length :
    (decode : HexDecode) (script : ScriptBuf) (first : ℕ) (os : List TxVout)
    → length (own_outputs decode script first os) ≡ length (filter (own_script decode script) os)
unfolding own_outputs
own_outputs-length decode script first [] = refl
own_outputs-length decode script first (o ∷ os) = elim (Bool-cases (own_script decode script o)) [
  | inl own ↦ rw own (ap suc (own_outputs-length decode script (first + 1) os))
  | inr other ↦ rw other (own_outputs-length decode script (first + 1) os)
]

-- An anchor names the transaction and an output of it that pays its value to the wallet.
abbrev pub Anchors : HexDecode → Txid → ℕ → EsploraTx → ScriptBuf → ChainAnchor → Type 0
Anchors decode txid height tx script a =
    (o : TxVout) × (get_elem? tx.vout a.change_outpoint.vout ≡ some o)
    × (own_script decode script o ≡ true)
    × (a.change_value ≡ o.value)
    × (a.change_outpoint.txid ≡ txid)
    × (a.confirmed_txid ≡ txid)
    × (a.confirmed_height ≡ height)
    × (a.change_script_pubkey ≡ script)

-- A chain anchor is extracted exactly if one output of the transaction, no more and no less, pays to the
-- wallet; it then names this output, with its index and value, under the given txid and height.
pub extract_chain_anchor-Anchors :
    (decode : HexDecode) (txid : Txid) (height : ℕ) (tx : EsploraTx) (script : ScriptBuf)
    → ((length (filter (own_script decode script) tx.vout) ≡ 1)
        × ((a : ChainAnchor) × (extract_chain_anchor decode txid height tx script ≡ ok a)
            × Anchors decode txid height tx script a))
      ⊎ ((length (filter (own_script decode script) tx.vout) ≢ 1)
          × (extract_chain_anchor decode txid height tx script ≡ err validation_failed))
unfolding extract_chain_anchor
extract_chain_anchor-Anchors decode txid height tx script =
    answer (own_outputs decode script 0 tx.vout) refl (own_outputs_sound decode script 0 tx.vout)
      (own_outputs-length decode script 0 tx.vout)
  where
    answer :
        (ps : List (ℕ × ℕ))
        → own_outputs decode script 0 tx.vout ≡ ps
        → All (IsOwn decode script 0 tx.vout) (own_outputs decode script 0 tx.vout)
        → length (own_outputs decode script 0 tx.vout)
          ≡ length (filter (own_script decode script) tx.vout)
        → ((length (filter (own_script decode script) tx.vout) ≡ 1)
            × ((a : ChainAnchor) × (anchor_from txid height script
                    (own_outputs decode script 0 tx.vout)
                  ≡ ok a)
                × Anchors decode txid height tx script a))
          ⊎ ((length (filter (own_script decode script) tx.vout) ≢ 1)
              × (anchor_from txid height script (own_outputs decode script 0 tx.vout)
                  ≡ err validation_failed))
    answer [] e h n = inr ((λ one. absurd (ground arith)), ap (anchor_from txid height script) e)
    answer (p ∷ []) e h n =
        let (i, o, at, found, value, own) = (subst (All (IsOwn decode script 0 tx.vout)) e h).0 in
        let here : p.0 ≡ i = omega (arith, at) in
        inl (
          sym n ∙ ap length e,
          (
            record {
              confirmed_txid = txid;
              change_outpoint = record { txid = txid; vout = p.0 };
              change_value = p.1;
              change_script_pubkey = script;
              confirmed_height = height;
            },
            ap (anchor_from txid height script) e,
            (o, ap (get_elem? tx.vout) here ∙ found, own, value, refl, refl, refl, refl),
          ),
        )
    answer (p ∷ q ∷ ps) e h n =
        inr ((λ one. absurd (ground arith)), ap (anchor_from txid height script) e)
