-- ===== src/Domain/Exceptions/Names.antt =====
-- `type(exc).__name__` and `str(exc)` of the domain exceptions. The text of a UUID is the uuid
-- library's, a parameter.
use banking_transaction_syst.Prelude.{ℕ, String, ◌<>◌}
use banking_transaction_syst.Domain.Amount.{money_text}
use banking_transaction_syst.Domain.Enums.CurrencyEnum
use banking_transaction_syst.Domain.Exceptions.Classes.{
  BaseError, resource_not_found, currency_mismatch, concurrency_conflict, business_rule_violation,
  AccountError, insufficient_funds, account_frozen, account_closed, account_not_empty,
  TransactionError, invalid_transfer_amount, same_account_transfer, already_processing,
  already_completed, not_failable, duplicate_idempotency_key, rollback_error,
}

unfoldable pub base_name : BaseError → String
base_name (resource_not_found _ _) = "ResourceNotFoundError"
base_name (currency_mismatch _ _) = "CurrencyMismatchError"
base_name (concurrency_conflict _) = "ConcurrencyConflictError"
base_name business_rule_violation = "BusinessRuleViolationError"

unfoldable pub account_name : AccountError → String
account_name (insufficient_funds _ _) = "InsufficientFundsError"
account_name (account_frozen _) = "AccountFrozenError"
account_name (account_closed _) = "AccountClosedError"
account_name (account_not_empty _ _) = "AccountNotEmptyError"

unfoldable pub transaction_name : TransactionError → String
transaction_name (invalid_transfer_amount _) = "InvalidTransferAmountError"
transaction_name (same_account_transfer _) = "SameAccountTransferError"
transaction_name (already_processing _ _) = "TransactionAlreadyProcessingError"
transaction_name (already_completed _ _) = "TransactionAlreadyCompletedError"
transaction_name (not_failable _ _) = "TransactionNotFailableError"
transaction_name (duplicate_idempotency_key _ _) = "DuplicateIdempotencyKeyError"
transaction_name (rollback_error _ _) = "TransactionRollbackError"

module _ (uuid_text : ℕ → String) where
  unfoldable pub base_message : BaseError → String
  unfolding CurrencyEnum.value
  base_message (resource_not_found resource id) =
      resource <> " with id '" <> uuid_text id <> "' not found."
  base_message (currency_mismatch left right) =
      "Cannot operate on different currencies: "
      <> CurrencyEnum.value left
      <> " vs "
      <> CurrencyEnum.value right
      <> "."
  base_message (concurrency_conflict resource) =
      "Concurrent operation in progress on '" <> resource <> "'. Please retry."
  base_message business_rule_violation = ""

  unfoldable pub account_message : AccountError → String
  unfolding money_text
  account_message (insufficient_funds available requested) =
      "Insufficient funds: requested "
      <> money_text requested
      <> ", but only "
      <> money_text available
      <> " available."
  account_message (account_frozen id) =
      "Account '" <> uuid_text id <> "' is frozen. No transactions permitted until unfrozen."
  account_message (account_closed id) = "Account '" <> uuid_text id <> "' is permanently closed."
  account_message (account_not_empty id balance) =
      "Cannot close account '"
      <> uuid_text id
      <> "': balance must be zero, current balance is "
      <> money_text balance
      <> "."

  unfoldable pub transaction_message : TransactionError → String
  unfolding money_text
  transaction_message (invalid_transfer_amount amount) =
      "Transfer amount must be greater than zero. Got: " <> money_text amount <> "."
  transaction_message (same_account_transfer id) =
      "Cannot transfer to the same account: '" <> uuid_text id <> "'."
  transaction_message (already_processing id status) =
      "Transaction '"
      <> uuid_text id
      <> "' cannot move to PROCESSING: current status is '"
      <> status
      <> "'. Only PENDING transactions can begin processing."
  transaction_message (already_completed id status) =
      "Transaction '"
      <> uuid_text id
      <> "' cannot be completed: current status is '"
      <> status
      <> "'. Only PROCESSING transactions can complete."
  transaction_message (not_failable id status) =
      "Transaction '"
      <> uuid_text id
      <> "' cannot be failed: current status is '"
      <> status
      <> "'. To reverse a COMPLETED transfer, create a REVERSAL transaction."
  transaction_message (duplicate_idempotency_key key id) =
      "Idempotency key '"
      <> key
      <> "' was already used by transaction '"
      <> uuid_text id
      <> "'. Return the existing transaction — do not create a duplicate."
  transaction_message (rollback_error id status) =
      "Transaction '"
      <> uuid_text id
      <> "' cannot be rolled back: current status is '"
      <> status
      <> "'. Rollback is only valid for FAILED transactions that reached PROCESSING."
