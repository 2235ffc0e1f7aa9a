-- ===== src/Domain/Enums/AccountStatusEnum.antt =====
-- `AccountStatus` in src/domain/value_objects/enums.py.
use banking_transaction_syst.Prelude.{
  String, Bool, true, false, ◌||◌, Option, none, some, ◌≡◌, refl,
}
use banking_transaction_syst.Prelude.Tests.{◌==◌, string_eq, if◌then◌else◌}

pub data AccountStatus : Type 0 where
  active frozen closed : AccountStatus

unfoldable pub value : AccountStatus → String
value active = "active"
value frozen = "frozen"
value closed = "closed"

unfoldable pub of_value : String → Option AccountStatus
of_value t =
    if t == "active"
    then some active
    else if t == "frozen"
    then some frozen
    else if t == "closed"
    then some closed
    else none

abbrev pub same : AccountStatus → AccountStatus → Bool
same active active = true
same frozen frozen = true
same closed closed = true
same _ _ = false

unfoldable pub can_transact : AccountStatus → Bool
can_transact s = same s active

-- `self in (ACTIVE, FROZEN)`
unfoldable pub can_close : AccountStatus → Bool
can_close s = same s active || same s frozen

unfoldable pub is_terminal : AccountStatus → Bool
is_terminal s = same s closed

pub of_value-value : (s : AccountStatus) → of_value (value s) ≡ some s
unfolding of_value value
of_value-value active = refl
of_value-value _ = refl
