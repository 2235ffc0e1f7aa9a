-- ===== src/Adapters/Sql/Transfers.antt =====
-- A transfer in the database that meets no obstacle.
use banking_transaction_syst.Prelude.{
  suc, ◌≡◌, ◌≢◌, refl, ap, sym, ◌∙◌, false, some, none, [], ◌∷◌, map, arith,
}
use banking_transaction_syst.Prelude.Lists.{append_assoc}
use banking_transaction_syst.Prelude.Tests.{nat_eq}
use banking_transaction_syst.Prelude.Dict.{update, update_self, update_ne}
use banking_transaction_syst.Domain.Amount.{Money}
use banking_transaction_syst.Domain.Money.{add, sub, is_zero}
use banking_transaction_syst.Domain.Enums.CurrencyEnum
use banking_transaction_syst.Domain.Enums.TransactionStatusEnum
use banking_transaction_syst.Domain.Enums.AccountStatusEnum
use banking_transaction_syst.Domain.Enums.AccountStatusEnum.{active}
use banking_transaction_syst.Domain.Exceptions.{ok}
use banking_transaction_syst.Domain.Events.{
  DomainEvent, of_account, balance_debited, balance_credited, event_type,
}
use banking_transaction_syst.Domain.Base.{new_root}
use banking_transaction_syst.Domain.Account.{Account, debit, credit, debited, credited}
use banking_transaction_syst.Domain.Account.Lifecycle.{debit_active, credit_active}
use banking_transaction_syst.Domain.Transaction.{Transaction, processed, finished}
use banking_transaction_syst.Application.Runtime.{Env}
use banking_transaction_syst.Application.Dtos.{TransferCommand}
use banking_transaction_syst.Application.Ports.{with_uow}
use banking_transaction_syst.Application.TransferService.{Parties, move_money, execute}
use banking_transaction_syst.Application.TransferService.Publication.{cleared}
use banking_transaction_syst.Application.TransferService.Moves
use banking_transaction_syst.Adapters.Mappers.AccountMapper
use banking_transaction_syst.Adapters.Mappers.AccountMapper.{AccountRow}
use banking_transaction_syst.Adapters.Mappers.TransactionMapper
use banking_transaction_syst.Adapters.Mappers.TransactionMapper.{TransactionRow}
use banking_transaction_syst.Adapters.Sql.Session.{Session, SqlWorld}
use banking_transaction_syst.Adapters.Sql.UnitOfWork.{enter, exit, unit_of_work, outbox_row}
use banking_transaction_syst.Adapters.Sql.Views.{
  Views, Answers, with_message, with_account, with_transaction, Tables,
}
use banking_transaction_syst.Adapters.Sql.Outcomes.{SqlTransferred}
use banking_transaction_syst.Adapters.Sql.Persisting
use banking_transaction_syst.Adapters.Sql.Loading
use banking_transaction_syst.Adapters.Sql.Loading.{to_domain_lem}

module _ {D L : Type 0} (session : Session D) (views : Views session) (answers : Answers session)
    (env : Env) (cmd : TransferCommand) (m : Money) (w : SqlWorld D L)
    {sender_row receiver_row : AccountRow} {a b : Account}
    (sender_read : answers.rows (session.open_session w.store.db) cmd.from_account_id
      ≡ some sender_row)
    (receiver_read : answers.rows (session.open_session w.store.db) cmd.to_account_id
      ≡ some receiver_row)
    (sender_valid : AccountMapper.to_domain sender_row ≡ ok a)
    (receiver_valid : AccountMapper.to_domain receiver_row ≡ ok b) (positive : is_zero m ≡ false)
    (distinct : cmd.from_account_id ≢ cmd.to_account_id)
    (unused : answers.transaction_rows (session.open_session w.store.db) (env.supply w.draws).uuid
      ≡ none)
    (sender_id : sender_row.id ≡ cmd.from_account_id)
    (receiver_id : receiver_row.id ≡ cmd.to_account_id) (xb yb : Money)
    (sender_active : a.status ≡ active) (receiver_active : b.status ≡ active)
    (covered : sub a.balance m ≡ ok xb) (summed : add b.balance m ≡ ok yb) where
  abbrev start : SqlWorld D L
  start =
      Loading.start session answers env cmd m w sender_read receiver_read sender_valid
        receiver_valid positive distinct

  abbrev t : Transaction
  t =
      Loading.t session answers env cmd m w sender_read receiver_read sender_valid receiver_valid
        positive distinct

  abbrev p : Parties
  p =
      Loading.p session answers env cmd m w sender_read receiver_read sender_valid receiver_valid
        positive distinct

  at_tx : start.transactions p.tx ≡ t
  at_tx =
      Loading.at_tx session answers env cmd m w sender_read receiver_read sender_valid
        receiver_valid positive distinct

  at_sender : start.accounts p.sender ≡ a
  at_sender =
      Loading.at_sender session answers env cmd m w sender_read receiver_read sender_valid
        receiver_valid positive distinct

  at_receiver : start.accounts p.receiver ≡ b
  at_receiver =
      Loading.at_receiver session answers env cmd m w sender_read receiver_read sender_valid
        receiver_valid positive distinct

  other : p.sender ≢ p.receiver
  other = λ h. absurd (omega arith)

  -- The sender's object after the debit, and its event.
  abbrev a2 : Account
  a2 = debited (env.supply (suc (suc w.draws))) m t.id xb a

  paid : debit (env.supply (suc (suc w.draws))) m t.id (start.accounts p.sender) ≡ ok a2
  paid =
      ap (debit (env.supply (suc (suc w.draws))) m t.id) at_sender
      ∙ debit_active (env.supply (suc (suc w.draws))) m t.id a xb sender_active covered

  abbrev t1 : Transaction
  t1 = processed (env.supply (suc w.draws)) t

  abbrev b2 : Account
  b2 = credited (env.supply (suc (suc (suc w.draws)))) m t.id yb b

  given : credit (env.supply (suc (suc (suc w.draws)))) m t.id (start.accounts p.receiver) ≡ ok b2
  given =
      ap (credit (env.supply (suc (suc (suc w.draws)))) m t.id) at_receiver
      ∙ credit_active (env.supply (suc (suc (suc w.draws)))) m t.id b yb receiver_active summed

  abbrev moved : SqlWorld D L
  moved = Moves.w4 env p m start t at_tx refl a2 paid other b2

  moves : move_money env p m start ≡ (ok tt, moved)
  moves = Moves.move_money_ok env p m start t at_tx refl a2 paid other b2 given

  abbrev t2 : Transaction
  t2 = finished (env.supply (suc (suc (suc (suc w.draws))))) t1

  a_id : a.id ≡ cmd.from_account_id
  a_id = (to_domain_lem sender_row a sender_valid).0 ∙ sender_id

  b_id : b.id ≡ cmd.to_account_id
  b_id = (to_domain_lem receiver_row b receiver_valid).0 ∙ receiver_id

  moved_sender : moved.accounts p.sender ≡ a2
  moved_sender =
      update_ne (update start.accounts p.sender a2) p.receiver b2 p.sender (λ h. other (sym h))
      ∙ update_self start.accounts p.sender a2

  moved_receiver : moved.accounts p.receiver ≡ b2
  moved_receiver = update_self (update start.accounts p.sender a2) p.receiver b2

  moved_tx : moved.transactions p.tx ≡ t2
  moved_tx = update_self (update start.transactions p.tx t1) p.tx t2

  reads_a : answers.rows moved.store.db a2.id ≡ some sender_row
  reads_a = ap (answers.rows (session.open_session w.store.db)) a_id ∙ sender_read

  reads_b : answers.rows moved.store.db b2.id ≡ some receiver_row
  reads_b = ap (answers.rows (session.open_session w.store.db)) b_id ∙ receiver_read

  apart : sender_row.id ≢ b2.id
  apart = λ h. distinct (sym sender_id ∙ (h ∙ b_id))

  new : answers.transaction_rows moved.store.db t2.id ≡ none
  unfolding new_root
  new = unused

  abbrev row_a : AccountRow
  row_a = AccountMapper.update_orm sender_row a2

  abbrev row_b : AccountRow
  row_b = AccountMapper.update_orm receiver_row b2

  abbrev done : SqlWorld D L
  done =
      Persisting.done session answers env p moved a2 b2 t2 moved_sender moved_receiver moved_tx
        other reads_a reads_b apart new refl refl

  abbrev y : SqlWorld D L
  y =
      Persisting.after session answers env p moved a2 b2 t2 moved_sender moved_receiver moved_tx
        other reads_a reads_b apart new refl refl

  executed : execute env (unit_of_work session) cmd m (enter session w) ≡ (ok p, y)
  executed =
      Loading.execution_ok session answers env cmd m w sender_read receiver_read sender_valid
        receiver_valid positive distinct moved moves
      ∙ Persisting.persisted session answers env p moved a2 b2 t2 moved_sender moved_receiver
          moved_tx other reads_a reads_b apart new refl refl

  abbrev debit_event : DomainEvent
  debit_event = record {
    event_id = (env.supply (suc (suc w.draws))).event_id;
    occurred_at = (env.supply (suc (suc w.draws))).occurred_at;
    body =
        of_account (balance_debited a.id t.id m.amount (CurrencyEnum.value m.currency) xb.amount);
  }

  abbrev credit_event : DomainEvent
  credit_event = record {
    event_id = (env.supply (suc (suc (suc w.draws)))).event_id;
    occurred_at = (env.supply (suc (suc (suc w.draws)))).occurred_at;
    body =
        of_account (balance_credited b.id t.id m.amount (CurrencyEnum.value m.currency) yb.amount);
  }

  abbrev row : TransactionRow
  row = TransactionMapper.to_new_orm t2

  abbrev d1 : D
  d1 = session.change_account row_a (session.open_session w.store.db)

  abbrev d2 : D
  d2 = session.change_account row_b d1

  abbrev d3 : D
  d3 = session.add_transaction row d2

  abbrev d4 : D
  d4 = session.add_outbox (outbox_row debit_event) d3

  written : done.store.db ≡ session.add_outbox (outbox_row credit_event) d4
  unfolding AccountMapper.update_orm
  written =
      rw
        (
          (to_domain_lem sender_row a sender_valid).1,
          (to_domain_lem receiver_row b receiver_valid).1,
        )
        refl

  abbrev after : Tables
  after = with_message (outbox_row credit_event) (
      with_message (outbox_row debit_event)
        (with_transaction row (with_account row_b (with_account row_a (views.durable w.store.db)))))

  durable : views.durable (exit session false y).store.db ≡ after
  durable =
      views.close_durable y.store.db
      ∙ (views.commit_ok done.store.db y.store.db (answers.commits done.store.db)
          ∙ rw
              (
                written,
                views.add_outbox_staged (outbox_row credit_event) d4,
                views.add_outbox_staged (outbox_row debit_event) d3,
                views.add_transaction_staged row d2,
                views.change_account_staged row_b d1,
                views.change_account_staged row_a (session.open_session w.store.db),
                views.open_staged w.store.db,
              )
              refl)

  -- The database answers, both rows are read as active accounts under the two ids, which differ, the
  -- amount is positive, the sender covers it, the receiver's sum is within the bound, and the id
  -- drawn for the transaction is new: after the block the table of accounts has the difference
  -- and the sum in the two rows and is otherwise as before, the completed transaction is a new row
  -- with the key of the command, and the outbox gains the messages of the debit and of the credit.
  -- The accounts have no event left to publish; the three events of the transaction are pending and
  -- in no table.
  pub block-SqlTransferred :
      let (answer, w') =
        with_uow (unit_of_work session) (execute env (unit_of_work session) cmd m) w in
      SqlTransferred views cmd sender_row receiver_row xb yb
        (env.supply w.draws).uuid
        (views.durable w.store.db)
        w.published
        w'
        answer
  unfolding new_root AccountMapper.update_orm TransactionMapper.to_new_orm
      TransactionStatusEnum.value event_type AccountStatusEnum.value
  block-SqlTransferred = rw executed (record {
    parties = p;
    answered = refl;
    sender_after = row_a;
    receiver_after = row_b;
    tx_row = row;
    debit_event = debit_event;
    credit_event = credit_event;
    accounts =
        ap (λ (x : Tables). x.accounts) durable
        ∙ (ap
              (λ i.
                update (update (views.durable w.store.db).accounts i (some row_a)) receiver_row.id
                  (some row_b))
              sender_id
            ∙ ap
                (λ i.
                  update
                    (update (views.durable w.store.db).accounts cmd.from_account_id (some row_a)) i
                    (some row_b))
                receiver_id);
    sender_balance = rw sender_active refl;
    receiver_balance = rw receiver_active refl;
    transactions = ap (λ (x : Tables). x.transactions) durable;
    status = refl;
    key = refl;
    outbox =
        ap (λ (x : Tables). x.outbox) durable
        ∙ append_assoc (views.durable w.store.db).outbox (outbox_row debit_event ∷ [])
            (outbox_row credit_event ∷ []);
    types = refl;
    other = other;
    tx_id = ap (λ (o : Transaction). o.id) moved_tx;
    tx_status = ap (λ (o : Transaction). o.status) moved_tx;
    unpublished = refl;
    sender_drained =
        ap (λ (o : Account). o.domain_events)
          (update_ne (update moved.accounts p.sender (cleared a2)) p.receiver (cleared b2) p.sender
              (λ h. other (sym h))
            ∙ update_self moved.accounts p.sender (cleared a2));
    receiver_drained =
        ap (λ (o : Account). o.domain_events)
          (update_self (update moved.accounts p.sender (cleared a2)) p.receiver (cleared b2));
    pending = ap (λ (o : Transaction). map event_type o.domain_events) moved_tx;
  })
