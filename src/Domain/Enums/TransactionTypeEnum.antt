-- ===== src/Domain/Enums/TransactionTypeEnum.antt =====
-- `TransactionType` in src/domain/value_objects/enums.py.
use banking_transaction_syst.Prelude.{String, Option, none, some, ◌≡◌, refl}
use banking_transaction_syst.Prelude.Tests.{◌==◌, string_eq, if◌then◌else◌}

pub data TransactionType : Type 0 where
  transfer deposit withdrawal : TransactionType

unfoldable pub value : TransactionType → String
value transfer = "transfer"
value deposit = "deposit"
value withdrawal = "withdrawal"

unfoldable pub of_value : String → Option TransactionType
of_value t =
    if t == "transfer"
    then some transfer
    else if t == "deposit"
    then some deposit
    else if t == "withdrawal"
    then some withdrawal
    else none

pub of_value-value : (t : TransactionType) → of_value (value t) ≡ some t
unfolding of_value value
of_value-value transfer = refl
of_value-value _ = refl
