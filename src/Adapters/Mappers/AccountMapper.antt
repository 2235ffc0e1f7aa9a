-- ===== src/Adapters/Mappers/AccountMapper.antt =====
-- `AccountMapper` and the row `AccountORM` (src/adapters/outbound/persistence).
use banking_transaction_syst.Prelude.{ℕ, String, ◌<>◌}
use banking_transaction_syst.Domain.Enums.CurrencyEnum
use banking_transaction_syst.Domain.Enums.AccountStatusEnum
use banking_transaction_syst.Domain.Amount.{Decimal, hundredths}
use banking_transaction_syst.Domain.Money.{decimal, money}
use banking_transaction_syst.Domain.Exceptions.{Result, ok, value_error, or_raise, ◌>>=◌}
use banking_transaction_syst.Domain.Account as Entity
use banking_transaction_syst.Domain.Account.{Account}
use banking_transaction_syst.Application.TransferService.{parse_currency}

-- `AccountORM`
pub record AccountRow : Type 0 where
  pub id : ℕ
  pub owner_id : ℕ
  pub account_number : String
  pub balance : Decimal
  pub currency : String
  pub status : String
  pub created_at : ℕ
  pub updated_at : ℕ

unfoldable pub to_domain : AccountRow → Result Account
to_domain orm = do
  currency ← parse_currency orm.currency
  balance ← money (decimal orm.balance) currency
  status ←
      or_raise (AccountStatusEnum.of_value orm.status)
        (value_error ("'" <> orm.status <> "' is not a valid AccountStatus"))
  ok (
      Entity.reconstitute orm.id orm.owner_id orm.account_number balance status orm.created_at
        orm.updated_at)

unfoldable pub to_new_orm : Account → AccountRow
to_new_orm a = record {
  id = a.id;
  owner_id = a.owner_id;
  account_number = a.account_number;
  balance = hundredths a.balance.amount;
  currency = CurrencyEnum.value a.balance.currency;
  status = AccountStatusEnum.value a.status;
  created_at = a.created_at;
  updated_at = a.updated_at;
}

unfoldable pub update_orm : AccountRow → Account → AccountRow
update_orm orm a = record orm {
  balance = hundredths a.balance.amount;
  currency = CurrencyEnum.value a.balance.currency;
  status = AccountStatusEnum.value a.status;
  updated_at = a.updated_at;
}
