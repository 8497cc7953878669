-- ===== src/Wallet/Types.antt =====
-- The values that the wallet's modules exchange: wallet/state.rs, request.rs, store.rs, runtime.rs
-- and config.rs. A txid, an address, a tapleaf hash and a sequence are compared and copied, never
-- computed with: numbers. A script and a witness item are lists of bytes. Amounts (`u64`),
-- heights and times in seconds are numbers.
use uni_pay.Prelude.{
  Bool, Eq, List, Option, String, arith, list_beq_iff, list_eq, map, nat_eq, none, some, true, ℕ,
  ◌&&◌, ◌==◌, ◌↔◌, ◌≡◌,
}

abbrev pub Txid : Type 0
Txid = ℕ

-- A UUID. Its text has a fixed width, so the order of the texts is the order of the numbers.
abbrev pub LineageId : Type 0
LineageId = ℕ

abbrev pub Address : Type 0
Address = ℕ

abbrev pub ScriptBuf : Type 0
ScriptBuf = List ℕ

abbrev pub Timestamp : Type 0
Timestamp = ℕ

pub record OutPoint : Type 0 where
  pub txid : Txid
  pub vout : ℕ

abbrev pub outpoint_beq : OutPoint → OutPoint → Bool
outpoint_beq a b = a.txid == b.txid && a.vout == b.vout

pub outpoint_beq_iff : (a b : OutPoint) → (outpoint_beq a b ≡ true) ↔ (a ≡ b)
outpoint_beq_iff a b = ground arith

instance abbrev pub outpoint_eq : Eq OutPoint
outpoint_eq = record { beq = outpoint_beq; beq_iff = outpoint_beq_iff }

pub record ChainAnchor : Type 0 where
  pub confirmed_txid : Txid
  pub change_outpoint : OutPoint
  pub change_value : ℕ
  pub change_script_pubkey : ScriptBuf
  pub confirmed_height : ℕ

abbrev pub anchor_beq : ChainAnchor → ChainAnchor → Bool
anchor_beq a b =
    a.confirmed_txid == b.confirmed_txid
    && a.change_outpoint == b.change_outpoint
    && a.change_value == b.change_value
    && a.change_script_pubkey == b.change_script_pubkey
    && a.confirmed_height == b.confirmed_height

pub anchor_beq_iff : (a b : ChainAnchor) → (anchor_beq a b ≡ true) ↔ (a ≡ b)
anchor_beq_iff a b = ground (arith, list_beq_iff a.change_script_pubkey b.change_script_pubkey)

instance abbrev pub anchor_eq : Eq ChainAnchor
anchor_eq = record { beq = anchor_beq; beq_iff = anchor_beq_iff }

pub record CoverUtxo : Type 0 where
  pub outpoint : OutPoint
  pub value : ℕ
  pub script_pubkey : ScriptBuf

-- `bitcoin::TapSighashType`
pub data TapSighashType : Type 0 where
  default : TapSighashType
  all : TapSighashType
  none_type : TapSighashType
  single : TapSighashType
  all_plus_anyone_can_pay : TapSighashType
  none_plus_anyone_can_pay : TapSighashType
  single_plus_anyone_can_pay : TapSighashType

pub record SendRequest : Type 0 where
  pub address : Address
  pub amount : ℕ

pub record SpendRequest : Type 0 where
  pub outpoint : OutPoint
  pub value : ℕ
  pub script_pubkey : ScriptBuf
  pub witness_template : List (List ℕ)
  pub script : ScriptBuf
  pub leaf_hash : ℕ
  pub sequence : ℕ
  pub sighash_type : TapSighashType
  pub recipient : Option SendRequest

pub data WalletRequestKind : Type 0 where
  send : SendRequest → WalletRequestKind
  spend : SpendRequest → WalletRequestKind

pub record WalletRequest : Type 0 where
  pub dedupe_key : String
  pub kind : WalletRequestKind

pub record PendingWalletRequest : Type 0 where
  pub request : WalletRequest
  pub chain_anchor : Option ChainAnchor
  pub created_at : Timestamp

pub record LiveLineageRequest : Type 0 where
  pub request : WalletRequest
  pub txid_history : List Txid
  pub created_at : Timestamp

pub record LiveLineageSnapshot : Type 0 where
  pub lineage_id : LineageId
  pub head_txid : Txid
  pub all_txids : List Txid
  pub requests : List LiveLineageRequest
  pub cover_utxos : List CoverUtxo
  pub chain_anchor : Option ChainAnchor

pub record LiveLineage : Type 0 where
  pub lineage_id : LineageId
  pub head_txid : Txid
  pub all_txids : List Txid
  pub requests : List LiveLineageRequest
  pub cover_utxos : List CoverUtxo
  pub chain_anchor : Option ChainAnchor

pub record RestoredWalletState : Type 0 where
  pub pending : List PendingWalletRequest
  pub inflight : List LiveLineageSnapshot

-- The fee-rate clamps are floats that only the fee estimator reads; the other fields are here.
pub record WalletConfig : Type 0 where
  pub tick_interval_secs : ℕ
  pub missing_batch_threshold : ℕ
  pub max_outputs_per_batch : ℕ
  pub max_pending_ttl_secs : ℕ
  pub min_change_value : ℕ
  pub max_concurrent_lineages : ℕ
  pub chain_anchor_confirmations : ℕ

-- The variants of `ExecutorError` that the modelled code builds, without their messages.
pub data ExecutorError : Type 0 where
  data_corruption : ExecutorError
  validation_failed : ExecutorError
  domain : ExecutorError
  external : ExecutorError

pub data ObservedTxState : Type 0 where
  confirmed : ObservedTxState
  in_mempool : ObservedTxState
  missing : ObservedTxState

pub record PendingState : Type 0 where
  pub free : List PendingWalletRequest
  pub anchored : List PendingWalletRequest

-- `live_lineages` is a map by `lineage_id`: here the list of its values, each under its own id.
pub record WalletRuntimeState : Type 0 where
  pub live_lineages : List LiveLineage
  pub pending : PendingState
  pub missing_observations : List (LineageId × ℕ)
  pub current_height : ℕ

-- `TxVout`, `TxStatus` and `EsploraTx` of clients/electrs.rs: the fields that the wallet reads.
pub record TxVout : Type 0 where
  pub scriptpubkey : String
  pub value : ℕ

pub record TxStatus : Type 0 where
  pub block_height : Option ℕ

pub record EsploraTx : Type 0 where
  pub vout : List TxVout
  pub status : TxStatus

-- `From<LiveLineageSnapshot>`
unfoldable pub from_snapshot : LiveLineageSnapshot → LiveLineage
from_snapshot s = record {
  lineage_id = s.lineage_id;
  head_txid = s.head_txid;
  all_txids = s.all_txids;
  requests = s.requests;
  cover_utxos = s.cover_utxos;
  chain_anchor = s.chain_anchor;
}

unfoldable pub wallet_requests : LiveLineage → List WalletRequest
wallet_requests l = map (λ r. r.request) l.requests

unfoldable pub derived_lineage_prevout : LiveLineage → Option CoverUtxo
derived_lineage_prevout l = elim l.chain_anchor [
  | none ↦ none
  | some a ↦ some (record {
    outpoint = a.change_outpoint;
    value = a.change_value;
    script_pubkey = a.change_script_pubkey;
  })
]
