-- ===== src/Adapters/Http/Accounts.antt =====
-- The account routes: src/adapters/inbound/http/routers/accounts.py and schemas/account.py. The
-- framework has parsed the request, and what it makes of an exception is Adapters/Http/Status.
pub mod Ownership
use banking_transaction_syst.Prelude.{ℕ, String, ◌≡◌, refl}
use banking_transaction_syst.Prelude.Tests.{if◌then◌else◌}
use banking_transaction_syst.Prelude.Int.{ℤ}
use banking_transaction_syst.Domain.Enums.CurrencyEnum
use banking_transaction_syst.Domain.Enums.CurrencyEnum.{Currency}
use banking_transaction_syst.Domain.Amount.{Decimal}
use banking_transaction_syst.Domain.Exceptions.{Result, ok, err, message, ◌>>=◌}
use banking_transaction_syst.Application.Runtime.{World, Env}
use banking_transaction_syst.Application.Ports.{UnitOfWork}
use banking_transaction_syst.Application.Dtos.{CreateAccountCommand, AccountDto}
use banking_transaction_syst.Application.TransferService.{parse_currency}
use banking_transaction_syst.Application.AccountService as Service
use banking_transaction_syst.Adapters.Http.Status.{status_code}
use banking_transaction_syst.Adapters.Http.Auth.{
  AuthenticatedUser, HttpException, Resolved, resolved, raised, can_access_account,
}

pub record CreateAccountRequest : Type 0 where
  pub currency : Currency
  pub initial_balance : Decimal

pub record AccountResponse : Type 0 where
  pub id : ℕ
  pub owner_id : ℕ
  pub account_number : String
  pub balance : ℤ
  pub currency : Currency
  pub status : String

-- `AccountResponse.from_dto`
unfoldable pub from_dto : AccountDto → Result AccountResponse
from_dto dto = do
  currency ← parse_currency dto.currency
  ok (record {
    id = dto.id;
    owner_id = dto.owner_id;
    account_number = dto.account_number;
    balance = dto.balance;
    currency = currency;
    status = dto.status;
  })

module _ {S L : Type 0} (env : Env) (uow : UnitOfWork S L) where
  -- The handlers of the exceptions.
  abbrev pub respond : {A : Type 0} → Result A → Resolved A
  respond (ok a) = resolved a
  respond (err e) =
      raised (record { status_code = status_code e; detail = message env.uuid_text e })

  -- `POST /accounts`
  unfoldable pub create_account :
      AuthenticatedUser → CreateAccountRequest → World S L → Resolved AccountResponse × World S L
  create_account user body w =
      let cmd : CreateAccountCommand = record {
        owner_id = user.user_id;
        currency = CurrencyEnum.value body.currency;
        initial_balance = body.initial_balance;
      } in
      let (answer, w') = Service.create_account env uow cmd w in (respond (answer >>= from_dto), w')

  check_owner : AuthenticatedUser → Result AccountDto → Resolved AccountResponse
  check_owner user (err e) = respond (err e)
  check_owner user (ok dto) =
      if can_access_account dto.owner_id user
      then respond (from_dto dto)
      else raised (record { status_code = 403; detail = "You do not have access to this account." })

  -- `GET /accounts/{account_id}`
  unfoldable pub get_account :
      AuthenticatedUser → ℕ → World S L → Resolved AccountResponse × World S L
  unfolding check_owner
  get_account user id w =
      let (answer, w') = Service.get env uow id w in (check_owner user answer, w')
