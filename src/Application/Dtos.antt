-- ===== src/Application/Dtos.antt =====
-- src/application/dtos: commands and snapshots. An amount of a snapshot is in hundredths.
use banking_transaction_syst.Prelude.{ℕ, String, Option, List}
use banking_transaction_syst.Prelude.Int.{ℤ}
use banking_transaction_syst.Domain.Amount.{Decimal}
use banking_transaction_syst.Domain.Enums.CurrencyEnum
use banking_transaction_syst.Domain.Enums.AccountStatusEnum
use banking_transaction_syst.Domain.Enums.TransactionStatusEnum
use banking_transaction_syst.Domain.Account.{Account}
use banking_transaction_syst.Domain.Transaction.{Transaction}

pub record CreateAccountCommand : Type 0 where
  pub owner_id : ℕ
  pub currency : String
  pub initial_balance : Decimal

pub record AccountDto : Type 0 where
  pub id : ℕ
  pub owner_id : ℕ
  pub account_number : String
  pub balance : ℤ
  pub currency : String
  pub status : String

pub record TransferCommand : Type 0 where
  pub from_account_id : ℕ
  pub to_account_id : ℕ
  pub amount : Decimal
  pub currency : String
  pub idempotency_key : String

pub record TransactionDto : Type 0 where
  pub id : ℕ
  pub from_account_id : ℕ
  pub to_account_id : ℕ
  pub amount : ℤ
  pub currency : String
  pub status : String
  pub idempotency_key : String
  pub failure_code : Option (List ℕ)
  pub failure_reason : Option String
  pub created_at : ℕ
  pub completed_at : Option ℕ

-- `AccountDTO.from_aggregate`
unfoldable pub account_dto : Account → AccountDto
account_dto a = record {
  id = a.id;
  owner_id = a.owner_id;
  account_number = a.account_number;
  balance = a.balance.amount;
  currency = CurrencyEnum.value a.balance.currency;
  status = AccountStatusEnum.value a.status;
}

-- `TransactionDTO.from_aggregate`
unfoldable pub transaction_dto : Transaction → TransactionDto
transaction_dto t = record {
  id = t.id;
  from_account_id = t.from_account_id;
  to_account_id = t.to_account_id;
  amount = t.amount.amount;
  currency = CurrencyEnum.value t.amount.currency;
  status = TransactionStatusEnum.value t.status;
  idempotency_key = t.idempotency_key;
  failure_code = t.failure_code;
  failure_reason = t.failure_reason;
  created_at = t.created_at;
  completed_at = t.completed_at;
}
