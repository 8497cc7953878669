-- ===== src/TxBuilder/Params.antt =====
-- tx_builder/primitives.rs and validation.rs: the parameters of a batch transaction and their checks.
-- The fee rate, a float that is only passed on, is left out of the parameters.
pub mod Checked
use uni_pay.Prelude.{
  List, Option, Result, [], contains, each, err, fail_if, if◌then◌else◌, is_empty, is_none, is_some,
  ltb, map, nat_eq, not, ok, ℕ, ◌&&◌, ◌++◌, ◌==◌, ◌>>=◌, ◌>>◌, ◌∷◌,
}
use uni_pay.TxBuilder.{TxBuilderError, validation}
use uni_pay.TxBuilder.Cover.{outpoints, with_lineage}
use uni_pay.Wallet.Request.{is_sacp}
use uni_pay.Wallet.Types.{
  CoverUtxo, OutPoint, SendRequest, SpendRequest, WalletRequest, WalletRequestKind, outpoint_eq,
  send, spend,
}

abbrev pub dust_limit : ℕ
dust_limit = 546

pub record BitcoinTxAdaptorParams : Type 0 where
  pub sacps : List SpendRequest
  pub spends : List SpendRequest
  pub sends : List SendRequest

-- One round of the loop of `from_requests`.
abbrev pub place_request :
    WalletRequestKind → BitcoinTxAdaptorParams → Result TxBuilderError BitcoinTxAdaptorParams
place_request (send s) p = ok (record p { sends = p.sends ++ s ∷ [] })
place_request (spend s) p =
    if not (is_sacp s.sighash_type) && is_some s.recipient
    then err validation
    else if is_sacp s.sighash_type
    then ok (record p { sacps = p.sacps ++ s ∷ [] })
    else ok (record p { spends = p.spends ++ s ∷ [] })

unfoldable pub place_all :
    List WalletRequest → BitcoinTxAdaptorParams → Result TxBuilderError BitcoinTxAdaptorParams
unfolding is_sacp
place_all [] p = ok p
place_all (r ∷ rs) p = place_request r.kind p >>= λ q. place_all rs q

unfoldable pub params_from_requests :
    List WalletRequest → Result TxBuilderError BitcoinTxAdaptorParams
unfolding place_all
params_from_requests rs = place_all rs (record { sacps = []; spends = []; sends = [] })

unfoldable pub validate_spend : SpendRequest → Result TxBuilderError (Unit {0})
unfolding is_sacp
validate_spend s =
    fail_if (s.value == 0) validation
    >> fail_if (is_sacp s.sighash_type && is_none s.recipient) validation

unfoldable pub validate : BitcoinTxAdaptorParams → Result TxBuilderError (Unit {0})
unfolding validate_spend
validate p =
    fail_if (is_empty p.sacps && is_empty p.spends && is_empty p.sends) validation
    >> (each validate_spend p.sacps
        >> (each validate_spend p.spends
            >> each (λ (s : SendRequest). fail_if (ltb s.amount dust_limit) validation) p.sends))

-- `seen.insert(outpoint)` for each outpoint in order.
unfoldable pub ensure_unique_outpoints :
    List OutPoint → List OutPoint → Result TxBuilderError (List OutPoint)
ensure_unique_outpoints seen [] = ok seen
ensure_unique_outpoints seen (o ∷ os) =
    fail_if (contains seen o) validation >>= λ _. ensure_unique_outpoints (o ∷ seen) os

abbrev pub mandatory_outpoints :
    BitcoinTxAdaptorParams → List CoverUtxo → Option CoverUtxo → List OutPoint
mandatory_outpoints p carried lineage =
    map (λ (s : SpendRequest). s.outpoint) p.sacps
    ++ map (λ (s : SpendRequest). s.outpoint) p.spends
    ++ outpoints carried
    ++ outpoints (with_lineage [] lineage)

unfoldable pub validate_unique_mandatory_inputs :
    BitcoinTxAdaptorParams → List CoverUtxo → Option CoverUtxo → Result TxBuilderError (Unit {0})
unfolding ensure_unique_outpoints
validate_unique_mandatory_inputs p carried lineage =
    ensure_unique_outpoints [] (mandatory_outpoints p carried lineage) >>= λ _. ok tt
