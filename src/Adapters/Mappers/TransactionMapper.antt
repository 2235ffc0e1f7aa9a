-- ===== src/Adapters/Mappers/TransactionMapper.antt =====
-- `TransactionMapper` and the row `TransactionORM` (src/adapters/outbound/persistence).
use banking_transaction_syst.Prelude.{ℕ, String, ◌<>◌, Option, List, false}
use banking_transaction_syst.Domain.Enums.CurrencyEnum
use banking_transaction_syst.Domain.Enums.TransactionStatusEnum
use banking_transaction_syst.Domain.Enums.TransactionTypeEnum
use banking_transaction_syst.Domain.Amount.{Decimal, hundredths}
use banking_transaction_syst.Domain.Money.{decimal, money}
use banking_transaction_syst.Domain.Exceptions.{Result, ok, value_error, or_raise, ◌>>=◌}
use banking_transaction_syst.Domain.Transaction as Entity
use banking_transaction_syst.Domain.Transaction.{Transaction}
use banking_transaction_syst.Application.TransferService.{parse_currency}

-- `TransactionORM`
pub record TransactionRow : Type 0 where
  pub id : ℕ
  pub from_account_id : ℕ
  pub to_account_id : ℕ
  pub amount : Decimal
  pub currency : String
  pub transaction_type : String
  pub status : String
  pub idempotency_key : String
  pub failure_code : Option (List ℕ)
  pub failure_reason : Option String
  pub created_at : ℕ
  pub updated_at : ℕ
  pub completed_at : Option ℕ

-- `rollback_required` is not among the arguments, so its default stands.
unfoldable pub to_domain : TransactionRow → Result Transaction
to_domain orm = do
  currency ← parse_currency orm.currency
  amount ← money (decimal orm.amount) currency
  type ←
      or_raise (TransactionTypeEnum.of_value orm.transaction_type)
        (value_error ("'" <> orm.transaction_type <> "' is not a valid TransactionType"))
  status ←
      or_raise (TransactionStatusEnum.of_value orm.status)
        (value_error ("'" <> orm.status <> "' is not a valid TransactionStatus"))
  ok (
      Entity.reconstitute orm.id orm.from_account_id orm.to_account_id amount type status
        orm.idempotency_key orm.created_at orm.updated_at orm.failure_code orm.failure_reason
        orm.completed_at false)

unfoldable pub to_new_orm : Transaction → TransactionRow
to_new_orm t = record {
  id = t.id;
  from_account_id = t.from_account_id;
  to_account_id = t.to_account_id;
  amount = hundredths t.amount.amount;
  currency = CurrencyEnum.value t.amount.currency;
  transaction_type = TransactionTypeEnum.value t.transaction_type;
  status = TransactionStatusEnum.value t.status;
  idempotency_key = t.idempotency_key;
  failure_code = t.failure_code;
  failure_reason = t.failure_reason;
  created_at = t.created_at;
  updated_at = t.updated_at;
  completed_at = t.completed_at;
}

unfoldable pub update_orm : TransactionRow → Transaction → TransactionRow
update_orm orm t = record orm {
  status = TransactionStatusEnum.value t.status;
  failure_code = t.failure_code;
  failure_reason = t.failure_reason;
  completed_at = t.completed_at;
  updated_at = t.updated_at;
}
