-- ===== src/Domain/Enums/TransactionStatusEnum.antt =====
-- `TransactionStatus` in src/domain/value_objects/enums.py.
use banking_transaction_syst.Prelude.{
  String, Bool, true, false, ◌||◌, Option, none, some, ◌≡◌, refl,
}
use banking_transaction_syst.Prelude.Tests.{◌==◌, string_eq, if◌then◌else◌}

pub data TransactionStatus : Type 0 where
  pending processing completed failed : TransactionStatus

unfoldable pub value : TransactionStatus → String
value pending = "pending"
value processing = "processing"
value completed = "completed"
value failed = "failed"

unfoldable pub of_value : String → Option TransactionStatus
of_value t =
    if t == "pending"
    then some pending
    else if t == "processing"
    then some processing
    else if t == "completed"
    then some completed
    else if t == "failed"
    then some failed
    else none

abbrev pub same : TransactionStatus → TransactionStatus → Bool
same pending pending = true
same processing processing = true
same completed completed = true
same failed failed = true
same _ _ = false

-- `self in (COMPLETED, FAILED)`
unfoldable pub is_terminal : TransactionStatus → Bool
is_terminal s = same s completed || same s failed

unfoldable pub can_process : TransactionStatus → Bool
can_process s = same s pending

unfoldable pub can_complete : TransactionStatus → Bool
can_complete s = same s processing

-- `self in (PENDING, PROCESSING)`
unfoldable pub can_fail : TransactionStatus → Bool
can_fail s = same s pending || same s processing

pub of_value-value : (s : TransactionStatus) → of_value (value s) ≡ some s
unfolding of_value value
of_value-value pending = refl
of_value-value _ = refl
