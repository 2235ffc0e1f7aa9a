-- ===== src/Application/TransferService.antt =====
-- `TransferService` (src/application/services/transfer.py). Logging is left out. A UUID and its text
-- are ordered alike, since the text is the hexadecimal number at a fixed width, so the keys of the
-- lock are sorted as numbers; a key stands for `str(id)`.
pub mod Moves
pub mod Execution
pub mod Requests
pub mod Publication
pub mod Invariant
pub mod LockOrder
use banking_transaction_syst.Prelude.{ℕ, String, ◌<>◌, Option, none, some, List, [], ◌∷◌, ◌++◌}
use banking_transaction_syst.Prelude.Tests.{ltb, if◌then◌else◌}
use banking_transaction_syst.Prelude.Dict.{update}
use banking_transaction_syst.Prelude.Text.{codes, upper, remove_all}
use banking_transaction_syst.Domain.Enums.CurrencyEnum
use banking_transaction_syst.Domain.Enums.CurrencyEnum.{Currency}
use banking_transaction_syst.Domain.Enums.TransactionTypeEnum.{transfer}
use banking_transaction_syst.Domain.Amount.{Money}
use banking_transaction_syst.Domain.Money.{decimal, money}
use banking_transaction_syst.Domain.Exceptions.{
  Exn, Result, ok, err, base, value_error, class_name, message, or_raise,
}
use banking_transaction_syst.Domain.Exceptions.Classes.{resource_not_found}
use banking_transaction_syst.Domain.Events.{DomainEvent}
use banking_transaction_syst.Domain.Base.{collect_events}
use banking_transaction_syst.Domain.Account.{Account, debit, credit}
use banking_transaction_syst.Domain.Transaction
use banking_transaction_syst.Domain.Transaction.{mark_processing, complete, fail}
use banking_transaction_syst.Application.Runtime.{
  World, Env, Proc, pure, raise, lift, gets, modify, continue, ◌>>=◌, ◌>>◌, handle, attempt,
  on_account, on_transaction, make_transaction,
}
use banking_transaction_syst.Application.Ports.{
  AccountRepository, TransactionRepository, UnitOfWork, LockManager, with_uow, with_lock,
}
use banking_transaction_syst.Application.Dtos.{TransferCommand, TransactionDto, transaction_dto}

-- `Currency(text)`
unfoldable pub parse_currency : String → Result Currency
parse_currency text =
    or_raise (CurrencyEnum.of_value text) (value_error ("'" <> text <> "' is not a valid Currency"))

-- `type(exc).__name__.upper().replace("ERROR", "")`
unfoldable pub failure_code : Exn → List ℕ
failure_code e = remove_all (codes "ERROR") (upper (codes (class_name e)))

-- `sorted([str(from_id), str(to_id)])`
unfoldable pub lock_keys : ℕ → ℕ → List ℕ
lock_keys from_id to_id = if ltb to_id from_id then to_id ∷ from_id ∷ [] else from_id ∷ to_id ∷ []

-- `InMemoryEventBus.publish_many`, called if there are events.
unfoldable pub publish_many : {S L : Type 0} → List DomainEvent → World S L → World S L
publish_many events w = record w { published = w.published ++ events }

-- The objects that one transfer works on.
pub record Parties : Type 0 where
  pub sender : ℕ
  pub receiver : ℕ
  pub tx : ℕ

module _ {S L : Type 0} where
  unfoldable pub collect_account : ℕ → World S L → List DomainEvent × World S L
  unfolding collect_events
  collect_account ref w =
      let a = w.accounts ref in
      let (events, root) = collect_events a.root in
      (events, record w { accounts = update w.accounts ref (record a { root = root }) })

  unfoldable pub collect_transaction : ℕ → World S L → List DomainEvent × World S L
  unfolding collect_events
  collect_transaction ref w =
      let t = w.transactions ref in
      let (events, root) = collect_events t.root in
      (events, record w { transactions = update w.transactions ref (record t { root = root }) })

  publish_any : List DomainEvent → Proc S L (Unit {0})
  publish_any [] w = (ok tt, w)
  publish_any (e ∷ es) w = (ok tt, publish_many (e ∷ es) w)

  -- Step 10: the events of the sender, of the receiver and of the transaction.
  unfoldable pub publish_events : Parties → Proc S L (Unit {0})
  unfolding collect_account collect_transaction publish_any publish_many
  publish_events p w =
      let (e1, w1) = collect_account p.sender w in
      let (e2, w2) = collect_account p.receiver w1 in
      let (e3, w3) = collect_transaction p.tx w2 in publish_any (e1 ++ (e2 ++ e3)) w3

  -- A repository's answer, or `ResourceNotFoundError("Account", id)`.
  unfoldable pub found : ℕ → Option ℕ → Proc S L ℕ
  found id none = raise (base (resource_not_found "Account" id))
  found id (some ref) = pure ref

  -- Step 7, in the order of the source.
  unfoldable pub move_money : Env → Parties → Money → Proc S L (Unit {0})
  move_money env p amount = do
    on_transaction env mark_processing p.tx
    tx_id ← gets (λ w. (w.transactions p.tx).id)
    on_account env (λ d. debit d amount tx_id) p.sender
    on_account env (λ d. credit d amount tx_id) p.receiver
    on_transaction env complete p.tx

  -- Step 5 for one account.
  abbrev pub load : UnitOfWork S L → ℕ → Proc S L ℕ
  load uow id = uow.accounts.get_with_lock id >>= found id

  module _ (env : Env) (uow : UnitOfWork S L) where
    -- The `except` block: record the failure, commit it and raise again.
    unfoldable pub record_failure : Parties → Exn → Proc S L (Unit {0})
    record_failure p e = do
      on_transaction env (λ d. fail d (failure_code e) (message env.uuid_text e)) p.tx
      uow.transactions.save p.tx
      uow.commit
      raise e

    -- Steps 8 and 9.
    unfoldable pub persist : Parties → Proc S L Parties
    persist p = do
      uow.accounts.update p.sender
      uow.accounts.update p.receiver
      uow.transactions.save p.tx
      uow.commit
      pure p

    -- Steps 5 to 9, inside the unit of work.
    unfoldable pub execute : TransferCommand → Money → Proc S L Parties
    unfolding found
    execute cmd amount = do
      sender ← load uow cmd.from_account_id
      receiver ← load uow cmd.to_account_id
      tx ← make_transaction env (λ d.
          Transaction.initiate d cmd.from_account_id cmd.to_account_id amount cmd.idempotency_key
            transfer)
      let p : Parties = record { sender = sender; receiver = receiver; tx = tx }
      attempt (move_money env p amount) (record_failure p)
      persist p

    transaction_found : ℕ → Option ℕ → Proc S L TransactionDto
    transaction_found id none = raise (base (resource_not_found "Transaction" id))
    transaction_found id (some ref) = gets (λ w. transaction_dto (w.transactions ref))

    -- `get`
    unfoldable pub get : ℕ → Proc S L TransactionDto
    unfolding transaction_found
    get id = with_uow uow (uow.transactions.get id >>= transaction_found id)

  module _ (env : Env) (uow : UnitOfWork S L) (lock : LockManager S L) where
    -- Steps 2 to 10.
    unfoldable pub perform : TransferCommand → Proc S L TransactionDto
    perform cmd = do
      currency ← lift (parse_currency cmd.currency)
      amount ← lift (money (decimal cmd.amount) currency)
      p ←
          with_lock lock (lock_keys cmd.from_account_id cmd.to_account_id)
            (with_uow uow (execute env uow cmd amount))
      publish_events p
      gets (λ w. transaction_dto (w.transactions p.tx))

    -- Step 1 with its early return.
    unfoldable pub answer : TransferCommand → Option ℕ → Proc S L TransactionDto
    answer cmd (some ref) = gets (λ w. transaction_dto (w.transactions ref))
    answer cmd none = perform cmd

    -- `initiate`
    unfoldable pub initiate : TransferCommand → Proc S L TransactionDto
    unfolding answer
    initiate cmd =
        with_uow uow (uow.transactions.get_by_idempotency_key cmd.idempotency_key) >>= answer cmd
