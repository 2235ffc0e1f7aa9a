-- ===== src/Adapters/Http/Accounts/Ownership.antt =====
-- Who sees an account that was opened over HTTP.
use banking_transaction_syst.Prelude.{◌≡◌, refl, ap, ◌∙◌}
use banking_transaction_syst.Prelude.Tests.{if◌then◌else◌}
use banking_transaction_syst.Domain.Enums.CurrencyEnum
use banking_transaction_syst.Domain.Enums.CurrencyEnum.{Currency}
use banking_transaction_syst.Domain.Amount.{Money}
use banking_transaction_syst.Domain.Money.{decimal, money}
use banking_transaction_syst.Domain.Exceptions.{ok}
use banking_transaction_syst.Domain.Account.{Account}
use banking_transaction_syst.Application.Runtime.{Env}
use banking_transaction_syst.Application.Dtos.{CreateAccountCommand, account_dto}
use banking_transaction_syst.Application.TransferService.{parse_currency}
use banking_transaction_syst.Application.AccountService as Service
use banking_transaction_syst.Adapters.InMemory.{MemWorld, unit_of_work}
use banking_transaction_syst.Adapters.InMemory.Accounts.{create_account-Created}
use banking_transaction_syst.Adapters.Http.Auth.{
  AuthenticatedUser, resolved, raised, can_access_account,
}
use banking_transaction_syst.Adapters.Http.Accounts.{
  CreateAccountRequest, AccountResponse, from_dto, create_account, check_owner, get_account,
}

currency_known : (c : Currency) → parse_currency (CurrencyEnum.value c) ≡ ok c
unfolding parse_currency
currency_known c = rw CurrencyEnum.of_value-value refl

abbrev response : Account → AccountResponse
response a = record {
  id = a.id;
  owner_id = a.owner_id;
  account_number = a.account_number;
  balance = a.balance.amount;
  currency = a.balance.currency;
  status = (account_dto a).status;
}

from_account : (a : Account) → from_dto (account_dto a) ≡ ok (response a)
unfolding from_dto account_dto
from_account a = rw (currency_known a.balance.currency) refl

-- An opening balance that is a Money: the account is opened for the caller with that balance, and
-- whoever asks for it by its id gets the same answer if the rights allow it, and 403 if not.
pub opened_account_visible :
    (env : Env) (user : AuthenticatedUser) (body : CreateAccountRequest) (m : Money) (w : MemWorld)
    → money (decimal body.initial_balance) body.currency ≡ ok m
    → let (reply, w') = create_account env unit_of_work user body w in
      (opened : AccountResponse) × (reply ≡ resolved opened)
      × (opened.owner_id ≡ user.user_id)
      × (opened.balance ≡ m.amount)
      × ((other : AuthenticatedUser)
          → (get_account env unit_of_work other opened.id w').0 ≡ (
              if can_access_account user.user_id other
              then resolved opened
              else raised (record {
                status_code = 403;
                detail = "You do not have access to this account.";
              })))
unfolding create_account get_account check_owner account_dto
opened_account_visible env user body m w rounded =
    let cmd : CreateAccountCommand = record {
      owner_id = user.user_id;
      currency = CurrencyEnum.value body.currency;
      initial_balance = body.initial_balance;
    } in
    let made =
      create_account-Created env cmd body.currency m w (currency_known body.currency) rounded in
    let a : Account = (Service.create_account env unit_of_work cmd w).1.accounts w.next in
    (
      response a,
      rw (made.answered, from_account) refl,
      made.owner,
      ap (λ (b : Money). b.amount) made.balance,
      λ other.
          ap (check_owner env unit_of_work other) (made.readable ∙ made.answered)
          ∙ rw (from_account, account_dto, made.owner) refl,
    )
