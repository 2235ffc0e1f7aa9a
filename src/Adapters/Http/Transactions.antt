-- ===== src/Adapters/Http/Transactions.antt =====
-- The transaction routes: src/adapters/inbound/http/routers/transactions.py and
-- schemas/transaction.py. The framework parses a request and tests the constraints of its fields.
pub mod Answers
use banking_transaction_syst.Prelude.{
  ℕ, String, Bool, true, false, ◌&&◌, Option, none, some, List, [], ◌∷◌,
}
use banking_transaction_syst.Prelude.Tests.{ltb, leb, if◌then◌else◌}
use banking_transaction_syst.Prelude.Text.{codes}
use banking_transaction_syst.Prelude.Lists.{length}
use banking_transaction_syst.Prelude.Int.{ℤ, pos, ltb_ℤ}
use banking_transaction_syst.Domain.Enums.CurrencyEnum
use banking_transaction_syst.Domain.Enums.CurrencyEnum.{Currency}
use banking_transaction_syst.Domain.Amount.{Decimal, finite, not_finite}
use banking_transaction_syst.Domain.Exceptions.{Exn, Result, ok, err, library, ◌>>=◌}
use banking_transaction_syst.Application.Runtime.{World, Env}
use banking_transaction_syst.Application.Ports.{UnitOfWork, LockManager}
use banking_transaction_syst.Application.Dtos.{TransferCommand, TransactionDto, AccountDto}
use banking_transaction_syst.Application.TransferService as Service
use banking_transaction_syst.Application.TransferService.{parse_currency}
use banking_transaction_syst.Application.AccountService as Accounts
use banking_transaction_syst.Adapters.Http.Auth.{
  AuthenticatedUser, HttpException, Resolved, resolved, raised, can_access_account,
}
use banking_transaction_syst.Adapters.Http.Accounts.{respond}

pub record TransferRequest : Type 0 where
  pub from_account_id : ℕ
  pub to_account_id : ℕ
  pub amount : Decimal
  pub currency : Currency
  pub idempotency_key : String

positive : Decimal → Bool
positive (finite units places) = ltb_ℤ (pos 0) units
positive not_finite = false

-- The constraints `gt`, `min_length` and `max_length` of the fields.
unfoldable pub is_valid : TransferRequest → Bool
unfolding positive
is_valid body =
    positive body.amount
    && (leb 1 (length (codes body.idempotency_key))
        && leb (length (codes body.idempotency_key)) 255)

pub record TransactionResponse : Type 0 where
  pub id : ℕ
  pub from_account_id : ℕ
  pub to_account_id : ℕ
  pub amount : ℤ
  pub currency : Currency
  pub status : String
  pub idempotency_key : String
  pub failure_code : Option (List ℕ)
  pub failure_reason : Option String
  pub created_at : ℕ
  pub completed_at : Option ℕ

-- `TransactionResponse.from_dto`
unfoldable pub from_dto : TransactionDto → Result TransactionResponse
from_dto dto = do
  currency ← parse_currency dto.currency
  ok (record {
    id = dto.id;
    from_account_id = dto.from_account_id;
    to_account_id = dto.to_account_id;
    amount = dto.amount;
    currency = currency;
    status = dto.status;
    idempotency_key = dto.idempotency_key;
    failure_code = dto.failure_code;
    failure_reason = dto.failure_reason;
    created_at = dto.created_at;
    completed_at = dto.completed_at;
  })

-- The ownership test, once the account was asked for: any exception lets the caller pass.
unfoldable pub check_sender : AuthenticatedUser → Result AccountDto → Resolved (Unit {0})
check_sender user (err e) = resolved tt
check_sender user (ok dto) =
    if can_access_account dto.owner_id user
    then resolved tt
    else raised (record { status_code = 403; detail = "You do not own this account." })

-- What is handed to `_get_account_or_403`.
pub data Argument : Type 0 where
  account_id : ℕ → Argument
  current_user : AuthenticatedUser → Argument
  service : Argument

module _ {S L : Type 0} (env : Env) (uow : UnitOfWork S L) where
  -- `_get_account_or_403`, a function of two arguments.
  unfoldable pub get_account_or_403 :
      ℕ → AuthenticatedUser → World S L → Resolved (Unit {0}) × World S L
  unfolding check_sender
  get_account_or_403 id user w =
      let (answer, w') = Accounts.get env uow id w in (check_sender user answer, w')

  -- A call of it with the arguments in their order. Python refuses a call whose arguments do not
  -- match the two parameters before it runs the body.
  unfoldable pub call_get_account_or_403 :
      List Argument → World S L → Result (Resolved (Unit {0})) × World S L
  unfolding get_account_or_403
  call_get_account_or_403 (account_id id ∷ current_user user ∷ []) w =
      let (answer, w') = get_account_or_403 id user w in (ok answer, w')
  call_get_account_or_403 _ w = (err (library "TypeError" "_get_account_or_403"), w)

  -- `GET /transactions/{transaction_id}`, which asks for no user.
  unfoldable pub get_transaction : ℕ → World S L → Resolved TransactionResponse × World S L
  get_transaction id w =
      let (answer, w') = Service.get env uow id w in (respond env uow (answer >>= from_dto), w')

  module _ (lock : LockManager S L) where
    -- The rest of the route after the ownership test.
    unfoldable pub transfer : TransferRequest → World S L → Resolved TransactionResponse × World S L
    transfer body w =
        let cmd : TransferCommand = record {
          from_account_id = body.from_account_id;
          to_account_id = body.to_account_id;
          amount = body.amount;
          currency = CurrencyEnum.value body.currency;
          idempotency_key = body.idempotency_key;
        } in
        let (answer, w') = Service.initiate env uow lock cmd w in
        (respond env uow (answer >>= from_dto), w')

    abbrev then_transfer :
        TransferRequest
        → Result (Resolved (Unit {0})) × World S L
        → Resolved TransactionResponse × World S L
    then_transfer body (err e, w) = (respond env uow (err e), w)
    then_transfer body (ok (raised e), w) = (raised e, w)
    then_transfer body (ok (resolved _), w) = transfer body w

    -- `POST /transactions/transfer`, once the framework has let the caller and the body pass: it hands
    -- the service to the ownership test as well.
    unfoldable pub initiate_transfer :
        TransferRequest → AuthenticatedUser → World S L → Resolved TransactionResponse × World S L
    initiate_transfer body user w = then_transfer body (
        call_get_account_or_403 (account_id body.from_account_id ∷ current_user user ∷ service ∷ [])
          w)
