-- ===== src/Application/AccountService.antt =====
-- `AccountService` (src/application/services/account.py).
use banking_transaction_syst.Prelude.{ℕ, Option, none, some}
use banking_transaction_syst.Domain.Money.{decimal, money}
use banking_transaction_syst.Domain.Exceptions.{base}
use banking_transaction_syst.Domain.Exceptions.Classes.{resource_not_found}
use banking_transaction_syst.Domain.Account.{create}
use banking_transaction_syst.Application.Runtime.{
  Env, Proc, raise, lift, gets, ◌>>=◌, ◌>>◌, make_account,
}
use banking_transaction_syst.Application.Ports.{UnitOfWork, with_uow}
use banking_transaction_syst.Application.Dtos.{CreateAccountCommand, AccountDto, account_dto}
use banking_transaction_syst.Application.TransferService.{parse_currency}

module _ {S L : Type 0} (env : Env) (uow : UnitOfWork S L) where
  unfoldable pub create_account : CreateAccountCommand → Proc S L AccountDto
  create_account cmd = do
    currency ← lift (parse_currency cmd.currency)
    balance ← lift (money (decimal cmd.initial_balance) currency)
    ref ← make_account env (λ d. create d cmd.owner_id currency (some balance))
    with_uow uow (do uow.accounts.save ref; uow.commit)
    gets (λ w. account_dto (w.accounts ref))

  unfoldable pub account_found : ℕ → Option ℕ → Proc S L AccountDto
  account_found id none = raise (base (resource_not_found "Account" id))
  account_found id (some ref) = gets (λ w. account_dto (w.accounts ref))

  unfoldable pub get : ℕ → Proc S L AccountDto
  unfolding account_found
  get id = with_uow uow (uow.accounts.get id >>= account_found id)
