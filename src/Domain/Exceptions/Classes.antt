-- ===== src/Domain/Exceptions/Classes.antt =====
-- The exception classes of src/domain/exceptions/base.py, account.py and transaction.py. A UUID
-- is the number that its 128 bits are.
use banking_transaction_syst.Prelude.{ℕ, String}
use banking_transaction_syst.Domain.Amount.{Money}
use banking_transaction_syst.Domain.Enums.CurrencyEnum.{Currency}

pub data BaseError : Type 0 where
  resource_not_found : (resource : String) (id : ℕ) → BaseError
  currency_mismatch : (left right : Currency) → BaseError
  concurrency_conflict : (resource : String) → BaseError
  business_rule_violation : BaseError

pub data AccountError : Type 0 where
  insufficient_funds : (available requested : Money) → AccountError
  account_frozen account_closed : (account_id : ℕ) → AccountError
  account_not_empty : (account_id : ℕ) (balance : Money) → AccountError

pub data TransactionError : Type 0 where
  invalid_transfer_amount : (amount : Money) → TransactionError
  same_account_transfer : (account_id : ℕ) → TransactionError
  already_processing already_completed not_failable :
      (transaction_id : ℕ) (current_status : String) → TransactionError
  duplicate_idempotency_key : (key : String) (existing_transaction_id : ℕ) → TransactionError
  rollback_error : (transaction_id : ℕ) (current_status : String) → TransactionError
