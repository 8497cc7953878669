-- ===== src/TxBuilder/Examples.antt =====
-- Concrete inputs and a concrete adaptor.
use mathlib.Core.Path.{refl}
use uni_pay.Prelude.{
  All, IsUnique, List, [], arith, contains, err, false, if◌then◌else◌, leb, map, none, ok, some,
  total, ℕ, ◌++◌, ◌-◌, ◌∷◌, ◌≡◌,
}
use uni_pay.TxBuilder.{consensus}
use uni_pay.TxBuilder.Available.{IsOwned, available-IsNew}
use uni_pay.TxBuilder.Built.{build_with_fee_floor-IsBuilt}
use uni_pay.TxBuilder.Cover.{
  BitcoinCoverUtxoProvider, add, available, insert_by_value, merge_missing, outpoints, select,
  select_from, sort_by_value,
}
use uni_pay.TxBuilder.Fee.{
  TxAdaptor, add_utxos, apply_all, build_with_fee_floor, fallback_best, fee_round, fee_rounds,
  negsuc, plan_fee_actions, pos, reduce_change, underpaid,
}
use uni_pay.TxBuilder.Params.{
  BitcoinTxAdaptorParams, ensure_unique_outpoints, params_from_requests, place_all,
  validate_unique_mandatory_inputs,
}
use uni_pay.TxBuilder.Params.Checked.{
  IsPlaced, lineage_outpoint, params_from_requests_conserves, params_weight,
  validate_unique_mandatory_inputs-IsUnique,
}
use uni_pay.TxBuilder.Reached.{IsBuilt}
use uni_pay.TxBuilder.Selection.{IsDescending, Selects, select-Selects}
use uni_pay.Wallet.Types.{CoverUtxo, SpendRequest, WalletRequest, outpoint_eq, send}

abbrev utxo : ℕ → ℕ → CoverUtxo
utxo txid value = record {
  outpoint = record { txid = txid; vout = 0 };
  value = value;
  script_pubkey = [];
}

select-Selects_example :
    (sorted : List CoverUtxo) × IsDescending sorted
    × ((w : CoverUtxo → ℕ) → total w sorted ≡ total w (utxo 1 500 ∷ utxo 2 700 ∷ []))
    × Selects 900 0 sorted (select (utxo 1 500 ∷ utxo 2 700 ∷ []) 900)
select-Selects_example = select-Selects (utxo 1 500 ∷ utxo 2 700 ∷ []) 900 (omega arith)

select_test :
    select (utxo 1 500 ∷ utxo 2 700 ∷ utxo 3 100 ∷ []) 900 ≡ ok (utxo 2 700 ∷ utxo 1 500 ∷ [])
unfolding select select_from sort_by_value insert_by_value
select_test = refl

abbrev provider : BitcoinCoverUtxoProvider
provider = record {
  script_pubkey = [];
  electrs = some (
      ok (
        record { txid = 1; vout = 0; value = 500 }
        ∷ record { txid = 2; vout = 0; value = 700 }
        ∷ []));
  must_include = utxo 9 40 ∷ [];
  selected = utxo 9 40 ∷ [];
  lineage_prevout = none;
  ignored_outpoints = record { txid = 2; vout = 0 } ∷ [];
}

available_lem : available provider [] ≡ ok (utxo 1 500 ∷ [])
unfolding available merge_missing
available_lem = refl

available-IsNew_example :
    All
      (λ (u : CoverUtxo).
        (contains [] u.outpoint ≡ false)
        × (contains (outpoints provider.selected) u.outpoint ≡ false)
        × IsOwned provider u)
      (utxo 1 500 ∷ [])
available-IsNew_example = available-IsNew provider [] (utxo 1 500 ∷ []) available_lem

plan_test : plan_fee_actions (underpaid 300) 700 546 ≡ reduce_change 154 ∷ add_utxos 146 ∷ []
unfolding plan_fee_actions
plan_test = refl

abbrev value_sum : List CoverUtxo → ℕ
value_sum = total (λ u. u.value)

-- A transaction is its inputs' value and its change; its fee is the difference, and it should be 100.
abbrev adaptor : TxAdaptor (ℕ × ℕ)
adaptor = record {
  build = λ us change. ok (value_sum us, change);
  current = λ p tx. ok (if leb tx.1 tx.0 then pos (tx.0 - tx.1) else negsuc (tx.1 - tx.0 - 1));
  target = λ tx. ok 100;
  encode = λ tx. ok (tx.0 ∷ tx.1 ∷ []);
  decode = λ bytes. err consensus;
  inputs = λ tx. [];
}

build_test :
    build_with_fee_floor adaptor provider 0 300
    ≡ ok (record { tx = (540, 440); change = 440; fee_paid_sats = 100 })
unfolding build_with_fee_floor fee_rounds fee_round apply_all plan_fee_actions fallback_best
    available merge_missing select select_from sort_by_value insert_by_value add
build_test = refl

build_with_fee_floor-IsBuilt_example :
    IsBuilt adaptor 300 provider 0 (build_with_fee_floor adaptor provider 0 300)
build_with_fee_floor-IsBuilt_example = build_with_fee_floor-IsBuilt adaptor provider 0 300

abbrev requests : List WalletRequest
requests = record { dedupe_key = "a"; kind = send (record { address = 1; amount = 1000 }) } ∷ []

abbrev parameters : BitcoinTxAdaptorParams
parameters = record { sacps = []; spends = []; sends = record { address = 1; amount = 1000 } ∷ [] }

params_lem : params_from_requests requests ≡ ok parameters
unfolding params_from_requests place_all
params_lem = refl

params_from_requests_conserves_example :
    (params_weight (λ s. s.amount) (λ s. s.value) parameters ≡ 1000)
    × IsPlaced (λ s. s.amount) (λ s. s.value) parameters
params_from_requests_conserves_example =
    params_from_requests_conserves (λ s. s.amount) (λ s. s.value) requests parameters params_lem

unique_lem :
    validate_unique_mandatory_inputs parameters (utxo 1 500 ∷ []) (some (utxo 2 700)) ≡ ok tt
unfolding validate_unique_mandatory_inputs ensure_unique_outpoints
unique_lem = refl

validate_unique_mandatory_inputs-IsUnique_example : IsUnique (
    map (λ (s : SpendRequest). s.outpoint) parameters.sacps
    ++ map (λ (s : SpendRequest). s.outpoint) parameters.spends
    ++ map (λ (u : CoverUtxo). u.outpoint) (utxo 1 500 ∷ [])
    ++ lineage_outpoint (some (utxo 2 700)))
validate_unique_mandatory_inputs-IsUnique_example =
    validate_unique_mandatory_inputs-IsUnique parameters (utxo 1 500 ∷ []) (some (utxo 2 700))
      unique_lem
