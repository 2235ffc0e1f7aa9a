-- ===== src/Adapters/Http/Transactions/Answers.antt =====
-- What the transaction routes answer, over the in-memory adapters where a store is needed.
use banking_transaction_syst.Prelude.{ℕ, ◌≡◌, ◌≢◌, refl, false, some, none}
use banking_transaction_syst.Prelude.Tests.{nat_eq, string_eq, if◌then◌else◌}
use banking_transaction_syst.Prelude.Dict.{lookup}
use banking_transaction_syst.Domain.Enums.CurrencyEnum
use banking_transaction_syst.Domain.Enums.CurrencyEnum.{Currency}
use banking_transaction_syst.Domain.Enums.AccountStatusEnum.{active}
use banking_transaction_syst.Domain.Enums.TransactionStatusEnum
use banking_transaction_syst.Domain.Amount.{Money}
use banking_transaction_syst.Domain.Money.{decimal, money, add, sub, is_zero}
use banking_transaction_syst.Domain.Exceptions.{ok}
use banking_transaction_syst.Domain.Transaction.{Transaction}
use banking_transaction_syst.Application.Runtime.{Env}
use banking_transaction_syst.Application.Dtos.{TransferCommand, account_dto}
use banking_transaction_syst.Application.TransferService as Service
use banking_transaction_syst.Application.TransferService.{parse_currency}
use banking_transaction_syst.Application.AccountService as Accounts
use banking_transaction_syst.Adapters.InMemory.{
  MemWorld, holds, unit_of_work, lock_manager, account_get,
}
use banking_transaction_syst.Adapters.Http.Auth.{
  AuthenticatedUser, resolved, raised, can_access_account,
}
use banking_transaction_syst.Adapters.Http.Transactions.{
  TransactionResponse, check_sender, get_account_or_403,
}

-- The response for a transaction.
abbrev response : Transaction → TransactionResponse
response t = record {
  id = t.id;
  from_account_id = t.from_account_id;
  to_account_id = t.to_account_id;
  amount = t.amount.amount;
  currency = t.amount.currency;
  status = TransactionStatusEnum.value t.status;
  idempotency_key = t.idempotency_key;
  failure_code = t.failure_code;
  failure_reason = t.failure_reason;
  created_at = t.created_at;
  completed_at = t.completed_at;
}

module _ (env : Env) (user : AuthenticatedUser) (id : ℕ) (w : MemWorld) where
  -- The ownership test lets a caller pass on a known account with the rights to it, refuses any
  -- other caller of it with 403, and lets everybody pass on an unknown account.
  get_account_or_403_lem :
      ((ref : ℕ)
        → lookup id w.store.accounts ≡ some ref
        → (get_account_or_403 env unit_of_work id user w).0 ≡ (
            if can_access_account (w.accounts ref).owner_id user
            then resolved tt
            else raised (record { status_code = 403; detail = "You do not own this account." })))
      × (lookup id w.store.accounts ≡ none
          → (get_account_or_403 env unit_of_work id user w).0 ≡ resolved tt)
  unfolding get_account_or_403 Accounts.get account_get check_sender Accounts.account_found
      account_dto
  get_account_or_403_lem = (λ ref h. rw h refl, λ h. rw h refl)

module _ (env : Env) (cmd : TransferCommand) (c : Currency) (m x y : Money) (w : MemWorld) (s r : ℕ)
    (new_key : lookup cmd.idempotency_key w.store.by_idempotency ≡ none)
    (known : parse_currency cmd.currency ≡ ok c) (rounded : money (decimal cmd.amount) c ≡ ok m)
    (positive : is_zero m ≡ false) (distinct : cmd.from_account_id ≢ cmd.to_account_id)
    (sender_free : holds cmd.from_account_id w.locks ≡ false)
    (receiver_free : holds cmd.to_account_id w.locks ≡ false)
    (sender_known : lookup cmd.from_account_id w.store.accounts ≡ some s)
    (receiver_known : lookup cmd.to_account_id w.store.accounts ≡ some r) (other : s ≢ r)
    (sender_active : (w.accounts s).status ≡ active)
    (receiver_active : (w.accounts r).status ≡ active)
    (covered : sub (w.accounts s).balance m ≡ ok x)
    (summed : add (w.accounts r).balance m ≡ ok y) where
  abbrev after : MemWorld
  after = (Service.initiate env unit_of_work (lock_manager env.uuid_text) cmd w).1
