-- ===== src/Adapters/Sql/Requests.antt =====
-- A whole request for a transfer over the database that meets no obstacle: the lookup of the key,
-- the locks, the block, and what is published after it.
use banking_transaction_syst.Prelude.{
  ℕ, ◌≡◌, ◌≢◌, refl, ap, sym, ◌∙◌, false, none, some, List, ◌++◌,
}
use banking_transaction_syst.Prelude.Tests.{nat_eq}
use banking_transaction_syst.Prelude.Dict.{update_self}
use banking_transaction_syst.Domain.Amount.{Money}
use banking_transaction_syst.Domain.Money.{decimal, money, add, sub, is_zero}
use banking_transaction_syst.Domain.Enums.CurrencyEnum.{Currency}
use banking_transaction_syst.Domain.Enums.TransactionStatusEnum
use banking_transaction_syst.Domain.Enums.AccountStatusEnum.{active}
use banking_transaction_syst.Domain.Exceptions.{Result, ok}
use banking_transaction_syst.Domain.Events.{DomainEvent}
use banking_transaction_syst.Domain.Account.{Account}
use banking_transaction_syst.Domain.Transaction.{Transaction}
use banking_transaction_syst.Application.Runtime.{Env, gets, ◌>>◌}
use banking_transaction_syst.Application.Runtime.Steps.{bind_ok}
use banking_transaction_syst.Application.Dtos.{TransferCommand, TransactionDto, transaction_dto}
use banking_transaction_syst.Application.Ports.{LockManager, Isolated, with_uow, failed}
use banking_transaction_syst.Application.TransferService.{
  Parties, parse_currency, lock_keys, execute, initiate, publish_events,
}
use banking_transaction_syst.Application.TransferService.Publication.{
  published_events, publish_events_lem, cleared_tx, w3,
}
use banking_transaction_syst.Application.TransferService.Requests.{initiate_new, perform_ok}
use banking_transaction_syst.Adapters.Mappers.AccountMapper
use banking_transaction_syst.Adapters.Mappers.AccountMapper.{AccountRow}
use banking_transaction_syst.Adapters.Sql.Session.{Session, SqlStore, SqlWorld}
use banking_transaction_syst.Adapters.Sql.Repositories.{
  transaction_get_by_idempotency_key, loaded_transaction,
}
use banking_transaction_syst.Adapters.Sql.UnitOfWork.{enter, exit, unit_of_work}
use banking_transaction_syst.Adapters.Sql.Views.{Views, Answers, Fresh, Tables}
use banking_transaction_syst.Adapters.Sql.Outcomes.{SqlTransferred, SqlAnswered}
use banking_transaction_syst.Adapters.Sql.Transfers.{block-SqlTransferred}

module _ {D L : Type 0} (session : Session D) (views : Views session) (answers : Answers session)
    (fresh : Fresh views answers) (lock : LockManager (SqlStore D) L) (isolated : Isolated lock)
    (env : Env) (cmd : TransferCommand) (c : Currency) (m : Money) (w : SqlWorld D L) where
  abbrev pub before : Tables
  before = views.durable w.store.db

  -- The process after the lookup of the key.
  abbrev pub idle : SqlWorld D L
  idle = exit session false (enter session w)

  idle_durable : views.durable idle.store.db ≡ before
  idle_durable = views.close_durable _ ∙ views.open_durable _

  abbrev pub locked : Result (Unit {0}) × List ℕ × SqlWorld D L
  locked = lock.acquire (lock_keys cmd.from_account_id cmd.to_account_id) idle

  abbrev w1 : SqlWorld D L
  w1 = record idle { locks = locked.2.locks }

  module _
      (new_key : session.select_by_key cmd.idempotency_key (session.open_session w.store.db)
        ≡ ok none)
      (known : parse_currency cmd.currency ≡ ok c) (rounded : money (decimal cmd.amount) c ≡ ok m)
      (granted : locked.0 ≡ ok tt) where
    looked_up :
        transaction_get_by_idempotency_key session cmd.idempotency_key (enter session w)
        ≡ (ok none, enter session w)
    unfolding transaction_get_by_idempotency_key loaded_transaction
    looked_up = rw new_key refl

    abbrev uow_block : Result Parties × SqlWorld D L
    uow_block = with_uow (unit_of_work session) (execute env (unit_of_work session) cmd m) w1

    abbrev executed : Result Parties × SqlWorld D L
    executed = execute env (unit_of_work session) cmd m (enter session w1)

    abbrev finish : Parties → SqlWorld D L → Result TransactionDto × SqlWorld D L
    finish p v =
        (publish_events p >> gets (λ u. transaction_dto (u.transactions p.tx)))
          (lock.release locked.1 v)

    free : locked ≡ (ok tt, locked.1, w1)
    free =
        ap (λ (r : Result (Unit {0})). (r, locked.1, locked.2)) granted
        ∙ ap (λ (v : SqlWorld D L). (ok tt, locked.1, v))
            (isolated.acquire_frame (lock_keys cmd.from_account_id cmd.to_account_id) idle)

    reached :
        (p : Parties)
        → uow_block.0 ≡ ok p
        → initiate env (unit_of_work session) lock cmd w
          ≡ (publish_events p >> gets (λ v. transaction_dto (v.transactions p.tx)))
              (lock.release locked.1 uow_block.1)
    reached p h =
        initiate_new env (unit_of_work session) lock cmd w (enter session w) looked_up
        ∙ (perform_ok env (unit_of_work session) lock cmd idle c known m rounded locked.1 w1
              executed.1 free p (ap (λ (r : Result Parties). (r, executed.1)) h)
            ∙ ap (λ (r : Result Parties). finish p (exit session (failed r) executed.1)) (sym h))

    module _ (p : Parties) (other : p.sender ≢ p.receiver) where
      abbrev t : Transaction
      t = uow_block.1.transactions p.tx

      -- The block is left and the locks are given back.
      abbrev released : SqlWorld D L
      released = record uow_block.1 { locks = (lock.release locked.1 uow_block.1).locks }

      abbrev events : List DomainEvent
      events =
          published_events p released (released.accounts p.sender) (released.accounts p.receiver) t
            other refl refl refl

      abbrev final : SqlWorld D L
      final =
          record (w3 p released (released.accounts p.sender) (released.accounts p.receiver) t other
            refl refl refl) { published = released.published ++ events }

      at_tx : final.transactions p.tx ≡ cleared_tx t
      at_tx = update_self released.transactions p.tx (cleared_tx t)

      ended :
          uow_block.0 ≡ ok p
          → initiate env (unit_of_work session) lock cmd w
            ≡ (ok (transaction_dto (final.transactions p.tx)), final)
      ended h =
          reached p h
          ∙ (ap (λ v. (publish_events p >> gets (λ u. transaction_dto (u.transactions p.tx))) v)
                (isolated.release_frame locked.1 uow_block.1)
              ∙ bind_ok (publish_events p) _ (
                  publish_events_lem p released (released.accounts p.sender)
                    (released.accounts p.receiver) t other refl refl refl))

    module _ {sender_row receiver_row : AccountRow} (xb yb : Money)
        (s : SqlTransferred views cmd sender_row receiver_row xb yb
          (env.supply w.draws).uuid
          before
          w.published
          uow_block.1
          uow_block.0) where
      requested :
          let (answer, w') = initiate env (unit_of_work session) lock cmd w in
          SqlAnswered views cmd sender_row receiver_row xb yb
            (env.supply w.draws).uuid
            before
            w.published
            w'
            answer
      unfolding TransactionStatusEnum.value transaction_dto
      requested = rw (ended s.parties s.other s.answered) (record {
        block = uow_block.1;
        result = uow_block.0;
        transferred = s;
        durable = refl;
        dto = _;
        answered = refl;
        id = ap (λ (o : Transaction). o.id) (at_tx s.parties s.other) ∙ s.tx_id;
        status =
            ap (λ (o : Transaction). TransactionStatusEnum.value o.status) (at_tx s.parties s.other)
            ∙ ap TransactionStatusEnum.value s.tx_status;
        events = events s.parties s.other;
        publishes = ap (λ (es : List DomainEvent). es ++ events s.parties s.other) s.unpublished;
        types = rw (s.sender_drained, s.receiver_drained) s.pending;
        drained = ap (λ (o : Transaction). o.domain_events) (at_tx s.parties s.other);
      })

    module _ {sender_row receiver_row : AccountRow} {a b : Account}
        (sender_read : before.accounts cmd.from_account_id ≡ some sender_row)
        (receiver_read : before.accounts cmd.to_account_id ≡ some receiver_row)
        (sender_valid : AccountMapper.to_domain sender_row ≡ ok a)
        (receiver_valid : AccountMapper.to_domain receiver_row ≡ ok b)
        (positive : is_zero m ≡ false) (distinct : cmd.from_account_id ≢ cmd.to_account_id)
        (unused : before.transactions (env.supply w.draws).uuid ≡ none)
        (sender_id : sender_row.id ≡ cmd.from_account_id)
        (receiver_id : receiver_row.id ≡ cmd.to_account_id) (xb yb : Money)
        (sender_active : a.status ≡ active) (receiver_active : b.status ≡ active)
        (covered : sub a.balance m ≡ ok xb) (summed : add b.balance m ≡ ok yb) where
      reads : (id : ℕ) → answers.rows (session.open_session idle.store.db) id ≡ before.accounts id
      reads id = fresh.open_rows idle.store.db id ∙ ap (λ (x : Tables). x.accounts id) idle_durable

      reads_transaction :
          (id : ℕ)
          → answers.transaction_rows (session.open_session idle.store.db) id
            ≡ before.transactions id
      reads_transaction id =
          fresh.open_transaction_rows idle.store.db id
          ∙ ap (λ (x : Tables). x.transactions id) idle_durable

      -- A database that answers and whose sessions start from the durable tables, and a lock manager
      -- that changes its locks only and grants both keys; a key that the database does not know, a
      -- currency and an amount that parse, the amount positive, two different ids whose rows are
      -- read as active accounts, of which the sender covers the amount and the receiver's sum is
      -- within the bound, and a new id drawn for the transaction: the request is answered with the
      -- completed transaction, and the tables have exactly the two new balances, the transaction
      -- and the messages of the debit and of the credit more. The events of the transaction are
      -- published once, and those of the accounts are not published, as they are in the outbox.
      pub initiate-SqlAnswered :
          let (answer, w') = initiate env (unit_of_work session) lock cmd w in
          SqlAnswered views cmd sender_row receiver_row xb yb
            (env.supply w.draws).uuid
            before
            w.published
            w'
            answer
      initiate-SqlAnswered = requested xb yb (
          rw (sym idle_durable) (
            block-SqlTransferred session views answers env cmd m w1
              (reads cmd.from_account_id ∙ sender_read) (reads cmd.to_account_id ∙ receiver_read)
              sender_valid receiver_valid positive distinct
              (reads_transaction (env.supply w.draws).uuid ∙ unused) sender_id receiver_id xb yb
              sender_active receiver_active covered summed))
