-- ===== src/Adapters/InMemory/Failures.antt =====
-- A transfer over the in-memory adapters whose debit or credit raises.
pub mod Stops
use banking_transaction_syst.Prelude.{ℕ, ◌≡◌, ◌≢◌, false, some, none}
use banking_transaction_syst.Prelude.Tests.{nat_eq, string_eq}
use banking_transaction_syst.Prelude.Dict.{lookup}
use banking_transaction_syst.Domain.Enums.CurrencyEnum.{Currency}
use banking_transaction_syst.Domain.Enums.AccountStatusEnum.{active}
use banking_transaction_syst.Domain.Enums.TransactionStatusEnum.{failed}
use banking_transaction_syst.Domain.Amount.{Money}
use banking_transaction_syst.Domain.Money.{decimal, money, sub, is_zero}
use banking_transaction_syst.Domain.Exceptions.{Exn, ok, err, message}
use banking_transaction_syst.Domain.Base.{Draw}
use banking_transaction_syst.Domain.Account.{debit, credit}
use banking_transaction_syst.Application.Runtime.{Env}
use banking_transaction_syst.Application.Dtos.{TransferCommand}
use banking_transaction_syst.Application.TransferService.{parse_currency}
use banking_transaction_syst.Adapters.InMemory.{MemWorld, holds}
use banking_transaction_syst.Adapters.InMemory.Locks.{acquire_pair}
use banking_transaction_syst.Adapters.InMemory.Success.{service}
use Stops.{Refused}

module _ (env : Env) (cmd : TransferCommand) (c : Currency) (m : Money) (w : MemWorld) (s r : ℕ)
    (new_key : lookup cmd.idempotency_key w.store.by_idempotency ≡ none)
    (known : parse_currency cmd.currency ≡ ok c) (rounded : money (decimal cmd.amount) c ≡ ok m)
    (positive : is_zero m ≡ false) (distinct : cmd.from_account_id ≢ cmd.to_account_id)
    (sender_free : holds cmd.from_account_id w.locks ≡ false)
    (receiver_free : holds cmd.to_account_id w.locks ≡ false)
    (sender_known : lookup cmd.from_account_id w.store.accounts ≡ some s)
    (receiver_known : lookup cmd.to_account_id w.store.accounts ≡ some r) (e : Exn) where
  -- A new key, a currency and an amount that parse, two different accounts that are known and not
  -- locked, a positive amount, and a debit that the sender's account refuses: the error is raised
  -- again, the transaction is stored as failed with the error's code and message and marked for a
  -- rollback, no account has changed, nothing is published and the locks are as before.
  pub debit-Refused :
      ((d : Draw) (tx : ℕ) → debit d m tx (w.accounts s) ≡ err e)
      → let (answer, w') = service env cmd w in
        Refused env cmd e w w' answer × (w'.accounts ≡ w.accounts)
  debit-Refused h =
      let (held, free) =
        acquire_pair env.uuid_text cmd.from_account_id cmd.to_account_id w.locks distinct
          sender_free receiver_free in
      Stops.debit_outcome env cmd c m w s r new_key known rounded positive distinct sender_free
        receiver_free sender_known receiver_known e held free h

  -- A new key, a currency and an amount that parse, two different accounts that are known and not
  -- locked, a positive amount that the active sender covers, and a credit that the receiver's
  -- account refuses: the error is raised again, the transaction is stored as failed with the
  -- error's code and message and marked for a rollback, nothing is published and the locks are as
  -- before. Yet the sender's object keeps the reduced balance, while no other account has changed:
  -- the unit of work in memory undoes nothing.
  pub credit-Refused :
      (x : Money)
      → (w.accounts s).status ≡ active
      → sub (w.accounts s).balance m ≡ ok x
      → s ≢ r
      → ((d : Draw) (tx : ℕ) → credit d m tx (w.accounts r) ≡ err e)
      → let (answer, w') = service env cmd w in
        Refused env cmd e w w' answer
        × ((w'.accounts s).balance ≡ x)
        × ((j : ℕ) → s ≢ j → w'.accounts j ≡ w.accounts j)
  credit-Refused x hs hx other h =
      let (held, free) =
        acquire_pair env.uuid_text cmd.from_account_id cmd.to_account_id w.locks distinct
          sender_free receiver_free in
      Stops.credit_outcome env cmd c m w s r new_key known rounded positive distinct sender_free
        receiver_free sender_known receiver_known e held free x hs hx other h
