-- ===== src/Wallet/Confirm.antt =====
-- wallet/confirm.rs: what a confirmed transaction means for the requests of its lineage.
pub mod Partition
use uni_pay.Prelude.{
  Bool, List, Option, Result, String, [], contains, err, false, if◌then◌else◌, list_eq, nat_eq,
  none, ok, some, ℕ, ◌+◌, ◌==◌, ◌∷◌,
}
use uni_pay.Wallet.Types.{
  ChainAnchor, EsploraTx, ExecutorError, LiveLineage, LiveLineageRequest, ScriptBuf, TxVout, Txid,
  WalletRequest, validation_failed,
}

pub record ConfirmationPartition : Type 0 where
  pub confirmed_txid : Txid
  pub confirmed_requests : List WalletRequest
  pub orphaned_requests : List WalletRequest

-- The loop that `partition_confirmed_lineage` and `partition_surviving_lineage` share: the requests whose
-- history has the txid, and the others.
unfoldable pub split_by_history :
    Txid → List LiveLineageRequest → List WalletRequest × List WalletRequest
split_by_history txid [] = ([], [])
split_by_history txid (r ∷ rs) =
    let (kept, lost) = split_by_history txid rs in
    if contains r.txid_history txid then (r.request ∷ kept, lost) else (kept, r.request ∷ lost)

unfoldable pub partition_confirmed_lineage : LiveLineage → Txid → ConfirmationPartition
unfolding split_by_history
partition_confirmed_lineage l txid =
    let (kept, lost) = split_by_history txid l.requests in
    record { confirmed_txid = txid; confirmed_requests = kept; orphaned_requests = lost }

-- `hex::decode`, a function of another crate: `none` for a text that is not hexadecimal.
abbrev pub HexDecode : Type 0
HexDecode = String → Option ScriptBuf

abbrev pub own_script : HexDecode → ScriptBuf → TxVout → Bool
own_script decode script output = elim (decode output.scriptpubkey) [
  | none ↦ false
  | some s ↦ s == script
]

-- The outputs that pay to the wallet, with their index from a first one on. `index as u32` does not
-- wrap: a transaction has less than 2 ^ 32 outputs.
unfoldable pub own_outputs : HexDecode → ScriptBuf → ℕ → List TxVout → List (ℕ × ℕ)
own_outputs decode script index [] = []
own_outputs decode script index (o ∷ os) =
    let rest = own_outputs decode script (index + 1) os in
    if own_script decode script o then (index, o.value) ∷ rest else rest

abbrev pub anchor_from : Txid → ℕ → ScriptBuf → List (ℕ × ℕ) → Result ExecutorError ChainAnchor
anchor_from txid height script [] = err validation_failed
anchor_from txid height script ((vout, value) ∷ []) = ok (record {
  confirmed_txid = txid;
  change_outpoint = record { txid = txid; vout = vout };
  change_value = value;
  change_script_pubkey = script;
  confirmed_height = height;
})
anchor_from txid height script (_ ∷ _ ∷ _) = err validation_failed

unfoldable pub extract_chain_anchor :
    HexDecode → Txid → ℕ → EsploraTx → ScriptBuf → Result ExecutorError ChainAnchor
unfolding own_outputs
extract_chain_anchor decode txid height tx script =
    anchor_from txid height script (own_outputs decode script 0 tx.vout)
