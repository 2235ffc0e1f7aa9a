-- ===== src/Adapters/Sql/Outcomes.antt =====
-- What a transfer leaves in the database, against the tables before it.
use banking_transaction_syst.Prelude.{ℕ, ◌≡◌, ◌≢◌, some, List, [], ◌∷◌, ◌++◌, map}
use banking_transaction_syst.Prelude.Tests.{nat_eq}
use banking_transaction_syst.Prelude.Dict.{update}
use banking_transaction_syst.Domain.Amount.{Money, hundredths}
use banking_transaction_syst.Domain.Enums.CurrencyEnum
use banking_transaction_syst.Domain.Enums.TransactionStatusEnum.{completed}
use banking_transaction_syst.Domain.Exceptions.{Exn, Result, ok, err}
use banking_transaction_syst.Domain.Events.{DomainEvent, of_account, balance_debited, event_type}
use banking_transaction_syst.Domain.Account.{Account}
use banking_transaction_syst.Application.Dtos.{TransferCommand, TransactionDto}
use banking_transaction_syst.Application.TransferService.{failure_code, Parties}
use banking_transaction_syst.Adapters.Mappers.AccountMapper.{AccountRow}
use banking_transaction_syst.Adapters.Mappers.TransactionMapper.{TransactionRow}
use banking_transaction_syst.Adapters.Sql.Session.{Session, SqlWorld}
use banking_transaction_syst.Adapters.Sql.UnitOfWork.{outbox_row}
use banking_transaction_syst.Adapters.Sql.Views.{Views, Tables}

-- What a transfer whose credit raised `e` leaves: the durable tables against those before it.
pub record PhantomDebit {D L : Type 0} {session : Session D} (views : Views session) (e : Exn)
    (a : Account) (m xb : Money) (tx : ℕ) (w w' : SqlWorld D L) (answer : Result Parties)
    : Type 0 where
  pub answered : answer ≡ err e
  pub event : DomainEvent
  pub record_row : TransactionRow
  pub accounts : (views.durable w'.store.db).accounts ≡ (views.durable w.store.db).accounts
  pub outbox :
      (views.durable w'.store.db).outbox
      ≡ (views.durable w.store.db).outbox ++ (outbox_row event ∷ [])
  pub transactions :
      (views.durable w'.store.db).transactions
      ≡ update (views.durable w.store.db).transactions tx (some record_row)
  pub body :
      event.body
      ≡ of_account (balance_debited a.id tx m.amount (CurrencyEnum.value m.currency) xb.amount)
  pub status : record_row.status ≡ "failed"
  pub code : record_row.failure_code ≡ some (failure_code e)
  pub silent : w'.published ≡ w.published

-- What a transfer leaves in the database: the durable tables after it against those before it, and
-- the objects of the parties.
pub record SqlTransferred {D L : Type 0} {session : Session D} (views : Views session)
    (cmd : TransferCommand) (sender_row receiver_row : AccountRow) (xb yb : Money) (tx : ℕ)
    (before : Tables) (published : List DomainEvent) (w' : SqlWorld D L) (answer : Result Parties)
    : Type 0 where
  pub parties : Parties
  pub answered : answer ≡ ok parties
  pub sender_after : AccountRow
  pub receiver_after : AccountRow
  pub tx_row : TransactionRow
  pub debit_event : DomainEvent
  pub credit_event : DomainEvent
  pub accounts :
      (views.durable w'.store.db).accounts
      ≡ update
          (update before.accounts cmd.from_account_id (some sender_after))
          cmd.to_account_id
          (some receiver_after)
  pub sender_balance : sender_after ≡ record sender_row {
    balance = hundredths xb.amount;
    currency = CurrencyEnum.value xb.currency;
    status = "active";
    updated_at = sender_after.updated_at;
  }
  pub receiver_balance : receiver_after ≡ record receiver_row {
    balance = hundredths yb.amount;
    currency = CurrencyEnum.value yb.currency;
    status = "active";
    updated_at = receiver_after.updated_at;
  }
  pub transactions :
      (views.durable w'.store.db).transactions ≡ update before.transactions tx (some tx_row)
  pub status : tx_row.status ≡ "completed"
  pub key : tx_row.idempotency_key ≡ cmd.idempotency_key
  pub outbox :
      (views.durable w'.store.db).outbox
      ≡ before.outbox ++ (outbox_row debit_event ∷ outbox_row credit_event ∷ [])
  pub types :
      map event_type (debit_event ∷ credit_event ∷ []) ≡ "BalanceDebited" ∷ "BalanceCredited" ∷ []
  pub other : parties.sender ≢ parties.receiver
  pub tx_id : (w'.transactions parties.tx).id ≡ tx
  pub tx_status : (w'.transactions parties.tx).status ≡ completed
  pub unpublished : w'.published ≡ published
  pub sender_drained : (w'.accounts parties.sender).domain_events ≡ []
  pub receiver_drained : (w'.accounts parties.receiver).domain_events ≡ []
  pub pending :
      map event_type (w'.transactions parties.tx).domain_events
      ≡ "TransactionInitiated" ∷ "TransactionProcessing" ∷ "TransactionCompleted" ∷ []

-- What a request that succeeds leaves: the tables of its block, the answer, and what is published.
pub record SqlAnswered {D L : Type 0} {session : Session D} (views : Views session)
    (cmd : TransferCommand) (sender_row receiver_row : AccountRow) (xb yb : Money) (tx : ℕ)
    (before : Tables) (published : List DomainEvent) (w' : SqlWorld D L)
    (answer : Result TransactionDto) : Type 0 where
  pub block : SqlWorld D L
  pub result : Result Parties
  pub transferred :
      SqlTransferred views cmd sender_row receiver_row xb yb tx before published block result
  pub durable : views.durable w'.store.db ≡ views.durable block.store.db
  pub dto : TransactionDto
  pub answered : answer ≡ ok dto
  pub id : dto.id ≡ tx
  pub status : dto.status ≡ "completed"
  pub events : List DomainEvent
  pub publishes : w'.published ≡ published ++ events
  pub types :
      map event_type events
      ≡ "TransactionInitiated" ∷ "TransactionProcessing" ∷ "TransactionCompleted" ∷ []
  pub drained : (w'.transactions transferred.parties.tx).domain_events ≡ []
