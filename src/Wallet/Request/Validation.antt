-- ===== src/Wallet/Request/Validation.antt =====
-- What `WalletRequest::from_parts` accepts.
use uni_pay.Prelude.{String, arith, false, is_none, ok, ◌&&◌, ◌<◌, ◌↔◌, ◌≡◌}
use uni_pay.Wallet.Request.{
  WalletRequest, WalletRequestKind, from_parts, is_blank, is_sacp, send, spend,
}

-- An amount or a value is positive, and a SACP spend has a recipient.
abbrev pub IsValidKind : WalletRequestKind → Type 0
IsValidKind (send s) = 0 < s.amount
IsValidKind (spend s) = (0 < s.value) × ((is_sacp s.sighash_type && is_none s.recipient) ≡ false)

-- A request is built exactly when its dedupe key is not blank, its amount or value is positive, and
-- it is not a SACP spend without a recipient; it then holds the key and the kind unchanged.
pub from_parts-eq_ok_iff :
    (key : String) (kind : WalletRequestKind) (r : WalletRequest)
    → (from_parts key kind ≡ ok r)
      ↔ ((is_blank key ≡ false) × IsValidKind kind × (r ≡ record { dedupe_key = key; kind = kind }))
unfolding from_parts
from_parts-eq_ok_iff key (send s) r = ground arith
from_parts-eq_ok_iff key (spend s) r = ground arith
