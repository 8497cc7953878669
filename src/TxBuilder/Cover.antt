-- ===== src/TxBuilder/Cover.antt =====
-- tx_builder/cover_utxo.rs: the provider of the wallet's own inputs. The Electrs client is a parameter:
-- its answer with the outputs of the wallet's address, in the order of the answer. The check
-- `is_confirmed_utxo` is `true` in the code. Every output has the wallet's script.
use uni_pay.Prelude.{
  List, Option, Result, [], contains, err, filter, if◌then◌else◌, is_some, leb, length, map, none,
  not, ok, ok_or, some, suc, zero, ℕ, ◌%◌, ◌++◌, ◌+◌, ◌-◌, ◌>>=◌, ◌∷◌,
}
use uni_pay.TxBuilder.{TxBuilderError, client, insufficient_funds}
use uni_pay.Wallet.Planner.{u64_mod}
use uni_pay.Wallet.Types.{CoverUtxo, OutPoint, ScriptBuf, Txid, outpoint_eq}

pub record Utxo : Type 0 where
  pub txid : Txid
  pub vout : ℕ
  pub value : ℕ

pub record BitcoinCoverUtxoProvider : Type 0 where
  pub script_pubkey : ScriptBuf
  pub electrs : Option (Result TxBuilderError (List Utxo))
  pub must_include : List CoverUtxo
  pub selected : List CoverUtxo
  pub lineage_prevout : Option OutPoint
  pub ignored_outpoints : List OutPoint

abbrev pub with_lineage : List CoverUtxo → Option CoverUtxo → List CoverUtxo
with_lineage utxos none = utxos
with_lineage utxos (some u) = utxos ++ u ∷ []

abbrev pub outpoint_of : Option CoverUtxo → Option OutPoint
outpoint_of none = none
outpoint_of (some u) = some u.outpoint

unfoldable pub new :
    ScriptBuf
    → Result TxBuilderError (List Utxo)
    → List CoverUtxo
    → Option CoverUtxo
    → List OutPoint
    → BitcoinCoverUtxoProvider
new script electrs must_include lineage ignored = record {
  script_pubkey = script;
  electrs = some electrs;
  must_include = with_lineage must_include lineage;
  selected = with_lineage must_include lineage;
  lineage_prevout = outpoint_of lineage;
  ignored_outpoints = ignored;
}

abbrev pub take : ℕ → List CoverUtxo → List CoverUtxo
take zero us = []
take (suc n) [] = []
take (suc n) (u ∷ us) = u ∷ take n us

abbrev pub drop : ℕ → List CoverUtxo → List CoverUtxo
drop zero us = us
drop (suc n) [] = []
drop (suc n) (u ∷ us) = drop n us

abbrev pub last_utxo : List CoverUtxo → Option CoverUtxo
last_utxo [] = none
last_utxo (u ∷ []) = some u
last_utxo (u ∷ v ∷ us) = last_utxo (v ∷ us)

unfoldable pub selected_cover_utxos : BitcoinCoverUtxoProvider → List CoverUtxo
selected_cover_utxos p =
    if is_some p.lineage_prevout then take (length p.selected - 1) p.selected else p.selected

unfoldable pub selected_lineage_prevout : BitcoinCoverUtxoProvider → Option CoverUtxo
selected_lineage_prevout p = if is_some p.lineage_prevout then last_utxo p.selected else none

-- `splice(insert_at..insert_at, utxos)`
abbrev pub splice : ℕ → List CoverUtxo → List CoverUtxo → List CoverUtxo
splice at us selected = take at selected ++ us ++ drop at selected

unfoldable pub add : List CoverUtxo → BitcoinCoverUtxoProvider → BitcoinCoverUtxoProvider
add utxos p = record p {
  selected =
      if is_some p.lineage_prevout
      then splice (length p.selected - 1) utxos p.selected
      else p.selected ++ utxos;
}

abbrev pub to_cover : ScriptBuf → Utxo → CoverUtxo
to_cover script u = record {
  outpoint = record { txid = u.txid; vout = u.vout };
  value = u.value;
  script_pubkey = script;
}

abbrev pub outpoints : List CoverUtxo → List OutPoint
outpoints = map (λ u. u.outpoint)

-- The merge loop over `must_include`.
unfoldable pub merge_missing : List CoverUtxo → List CoverUtxo → List CoverUtxo
merge_missing all_utxos [] = all_utxos
merge_missing all_utxos (u ∷ us) =
    merge_missing
      (if contains (outpoints all_utxos) u.outpoint then all_utxos else all_utxos ++ u ∷ []) us

abbrev pub own_utxos : BitcoinCoverUtxoProvider → List Utxo → List CoverUtxo
own_utxos p us =
    filter (λ u. not (contains p.ignored_outpoints u.outpoint)) (map (to_cover p.script_pubkey) us)

abbrev pub available_from : BitcoinCoverUtxoProvider → List OutPoint → List Utxo → List CoverUtxo
available_from p inputs us =
    filter (λ u. not (contains (outpoints p.selected) u.outpoint))
      (filter (λ u. not (contains inputs u.outpoint))
        (merge_missing (own_utxos p us) p.must_include))

-- For a transaction with these inputs.
unfoldable pub available :
    BitcoinCoverUtxoProvider → List OutPoint → Result TxBuilderError (List CoverUtxo)
unfolding merge_missing
available p inputs = do
  electrs ← ok_or p.electrs client
  us ← electrs
  ok (available_from p inputs us)

-- A stable sort, the largest value first.
unfoldable pub insert_by_value : CoverUtxo → List CoverUtxo → List CoverUtxo
insert_by_value u [] = u ∷ []
insert_by_value u (v ∷ vs) = if leb v.value u.value then u ∷ v ∷ vs else v ∷ insert_by_value u vs

unfoldable pub sort_by_value : List CoverUtxo → List CoverUtxo
unfolding insert_by_value
sort_by_value [] = []
sort_by_value (u ∷ us) = insert_by_value u (sort_by_value us)

-- The loop of `select`, with `acc` on `u64`.
unfoldable pub select_from : ℕ → ℕ → List CoverUtxo → Result TxBuilderError (List CoverUtxo)
select_from needed acc [] = err (insufficient_funds needed acc)
select_from needed acc (u ∷ us) =
    let acc' = (acc + u.value) % u64_mod in
    let rest = select_from needed acc' us in
    if leb needed acc' then ok (u ∷ []) else (rest >>= λ more. ok (u ∷ more))

unfoldable pub select : List CoverUtxo → ℕ → Result TxBuilderError (List CoverUtxo)
unfolding select_from sort_by_value
select utxos needed = select_from needed 0 (sort_by_value utxos)
