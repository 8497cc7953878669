-- ===== src/Wallet/Request.antt =====
-- wallet/request.rs: the validated constructors of `WalletRequest`.
use Prim.Native.Char.{code}
use Prim.Native.String.{[], ◌∷◌}
pub mod Validation
use uni_pay.Prelude.{
  Bool, Result, String, err, fail_if, false, if◌then◌else◌, is_none, leb, nat_eq, ok, true, ℕ, ◌&&◌,
  ◌==◌, ◌>>=◌, ◌>>◌, ◌||◌,
}
use uni_pay.Wallet.Types.{
  TapSighashType, WalletRequest, WalletRequestKind, send, single_plus_anyone_can_pay, spend,
}

pub data WalletRequestError : Type 0 where
  empty_dedupe_key : WalletRequestError
  invalid_send_amount : WalletRequestError
  invalid_spend_value : WalletRequestError
  missing_sacp_recipient : WalletRequestError

-- `char::is_whitespace`: the code points of Unicode's `White_Space`.
abbrev pub is_whitespace : ℕ → Bool
is_whitespace c =
    leb 9 c && leb c 13
    || c == 32
    || c == 0x85
    || c == 0xa0
    || c == 0x1680
    || leb 0x2000 c && leb c 0x200a
    || c == 0x2028
    || c == 0x2029
    || c == 0x202f
    || c == 0x205f
    || c == 0x3000

-- `text.trim().is_empty()`
unfoldable pub is_blank : String → Bool
is_blank [] = true
is_blank (c ∷ text) = is_whitespace (code c) && is_blank text

unfoldable pub validate_dedupe_key : String → Result WalletRequestError String
validate_dedupe_key key = if is_blank key then err empty_dedupe_key else ok key

unfoldable pub is_sacp : TapSighashType → Bool
is_sacp single_plus_anyone_can_pay = true
is_sacp _ = false

unfoldable pub validate_kind : WalletRequestKind → Result WalletRequestError (Unit {0})
unfolding is_sacp
validate_kind (send s) = fail_if (s.amount == 0) invalid_send_amount
validate_kind (spend s) =
    fail_if (s.value == 0) invalid_spend_value
    >> fail_if (is_sacp s.sighash_type && is_none s.recipient) missing_sacp_recipient

unfoldable pub from_parts : String → WalletRequestKind → Result WalletRequestError WalletRequest
unfolding validate_dedupe_key validate_kind
from_parts key kind = do
  key' ← validate_dedupe_key key
  validate_kind kind
  ok (record { dedupe_key = key'; kind = kind })
