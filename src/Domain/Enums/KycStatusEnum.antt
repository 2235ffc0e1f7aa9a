-- ===== src/Domain/Enums/KycStatusEnum.antt =====
-- `KycStatus` in src/domain/value_objects/enums.py.
use banking_transaction_syst.Prelude.{String, Bool, true, false}

pub data KycStatus : Type 0 where
  pending submitted verified rejected : KycStatus

pub value : KycStatus → String
value pending = "pending"
value submitted = "submitted"
value verified = "verified"
value rejected = "rejected"

pub can_open_account : KycStatus → Bool
can_open_account verified = true
can_open_account _ = false

pub is_terminal : KycStatus → Bool
is_terminal rejected = true
is_terminal _ = false
