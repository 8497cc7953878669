-- ===== src/Orderbook/Types.antt =====
-- The fields of Tars-rs/crates/orderbook/src/primitives.rs that the order mapper reads. A `BigDecimal` here
-- is a block number or an amount in base units, and a count of confirmations or blocks is an `i32` that
-- is not negative: numbers. Times are seconds; a price is an `f64`, a type `F` of its own.
use Prim.Native.String.{◌++◌ as str_append}
use uni_pay.Prelude.{Bool, List, Option, String, not, string_eq, ℕ, ◌==◌}

-- `MaybeString`: no value is the empty text.
abbrev pub MaybeString : Type 0
MaybeString = String

unfoldable pub maybe_is_some : MaybeString → Bool
maybe_is_some s = not (s == "")

pub record SingleSwap : Type 0 where
  pub created_at : ℕ
  pub chain : String
  pub asset : String
  pub timelock : ℕ
  pub filled_amount : ℕ
  pub amount : ℕ
  pub secret : MaybeString
  pub initiate_tx_hash : MaybeString
  pub redeem_tx_hash : MaybeString
  pub refund_tx_hash : MaybeString
  pub initiate_block_number : Option ℕ
  pub refund_block_number : Option ℕ
  pub required_confirmations : ℕ
  pub current_confirmations : ℕ

pub record AdditionalData (F : Type 0) : Type 0 where
  pub input_token_price : F
  pub output_token_price : F
  pub deadline : ℕ
  pub is_blacklisted : Bool

pub record MatchedOrderVerbose (F : Type 0) : Type 0 where
  pub created_at : ℕ
  pub source_swap : SingleSwap
  pub destination_swap : SingleSwap
  pub additional_data : AdditionalData F

pub data ActionType : Type 0 where
  on_initiate : ActionType
  on_initiate_with_signature : ActionType
  on_redeem : ActionType
  on_refund : ActionType
  on_instant_refund : ActionType

-- The actions that the mapper builds.
pub data HtlcAction : Type 0 where
  initiate : HtlcAction
  redeem : List ℕ → HtlcAction
  refund : HtlcAction
  instant_refund : HtlcAction
  no_op : HtlcAction

pub record ActionWithInfo : Type 0 where
  pub action : HtlcAction
  pub swap : Option SingleSwap

unfoldable pub get_order_pair : {F : Type 0} → MatchedOrderVerbose F → String
get_order_pair o = str_append o.source_swap.chain (
    str_append ":" (
      str_append o.source_swap.asset (
        str_append "::"
          (str_append o.destination_swap.chain (str_append ":" o.destination_swap.asset)))))

-- What fails: the price fetcher, or the decoding of the secret.
pub data MapError : Type 0 where
  no_price : MapError
  bad_secret : MapError
