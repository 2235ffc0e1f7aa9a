-- ===== src/Adapters/Sql/Phantom.antt =====
-- A transfer in the database whose credit is refused: the failure is recorded, no account is
-- written, and yet the outbox gets the message of the debit.
use banking_transaction_syst.Prelude.{
  ℕ, suc, ◌≡◌, ◌≢◌, refl, ap, ◌∙◌, true, false, some, none, arith,
}
use banking_transaction_syst.Prelude.Tests.{nat_eq}
use banking_transaction_syst.Prelude.Dict.{update_self, update_ne}
use banking_transaction_syst.Domain.Amount.{Money}
use banking_transaction_syst.Domain.Money.{sub, is_zero}
use banking_transaction_syst.Domain.Enums.CurrencyEnum
use banking_transaction_syst.Domain.Enums.TransactionStatusEnum
use banking_transaction_syst.Domain.Enums.AccountStatusEnum.{active}
use banking_transaction_syst.Domain.Exceptions.{Exn, ok, err, message}
use banking_transaction_syst.Domain.Events.{DomainEvent, of_account, balance_debited}
use banking_transaction_syst.Domain.Base.{Draw, new_root}
use banking_transaction_syst.Domain.Account.{Account, debit, credit, debited}
use banking_transaction_syst.Domain.Account.Lifecycle.{debit_active}
use banking_transaction_syst.Domain.Transaction.{Transaction, processed, failing}
use banking_transaction_syst.Application.Runtime.{Env}
use banking_transaction_syst.Application.Dtos.{TransferCommand}
use banking_transaction_syst.Application.Ports.{with_uow}
use banking_transaction_syst.Application.TransferService.{
  Parties, failure_code, move_money, execute,
}
use banking_transaction_syst.Application.TransferService.Moves
use banking_transaction_syst.Application.TransferService.Execution
use banking_transaction_syst.Adapters.Mappers.AccountMapper
use banking_transaction_syst.Adapters.Mappers.AccountMapper.{AccountRow}
use banking_transaction_syst.Adapters.Mappers.TransactionMapper
use banking_transaction_syst.Adapters.Mappers.TransactionMapper.{TransactionRow}
use banking_transaction_syst.Adapters.Sql.Session.{Session, SqlWorld, write}
use banking_transaction_syst.Adapters.Sql.Repositories.{transaction_save}
use banking_transaction_syst.Adapters.Sql.UnitOfWork.{commit, enter, exit, unit_of_work, outbox_row}
use banking_transaction_syst.Adapters.Sql.Views.{
  Views, Answers, with_message, with_transaction, Tables,
}
use banking_transaction_syst.Adapters.Sql.Outcomes.{PhantomDebit}
use banking_transaction_syst.Adapters.Sql.Outbox
use banking_transaction_syst.Adapters.Sql.Saving.{transaction_save_new}
use banking_transaction_syst.Adapters.Sql.Loading
use banking_transaction_syst.Adapters.Sql.Loading.{to_domain_lem}

module _ {D L : Type 0} (session : Session D) (views : Views session) (answers : Answers session)
    (env : Env) (cmd : TransferCommand) (m : Money) (w : SqlWorld D L)
    {sender_row receiver_row : AccountRow} {a b : Account}
    (sender_read : answers.rows (session.open_session w.store.db) cmd.from_account_id
      ≡ some sender_row)
    (receiver_read : answers.rows (session.open_session w.store.db) cmd.to_account_id
      ≡ some receiver_row)
    (sender_valid : AccountMapper.to_domain sender_row ≡ ok a)
    (receiver_valid : AccountMapper.to_domain receiver_row ≡ ok b) (positive : is_zero m ≡ false)
    (distinct : cmd.from_account_id ≢ cmd.to_account_id)
    (unused : answers.transaction_rows (session.open_session w.store.db) (env.supply w.draws).uuid
      ≡ none)
    (xb : Money) (sender_active : a.status ≡ active) (covered : sub a.balance m ≡ ok xb) (e : Exn)
    (refused : (d : Draw) (tx : ℕ) → credit d m tx b ≡ err e) where
  abbrev start : SqlWorld D L
  start =
      Loading.start session answers env cmd m w sender_read receiver_read sender_valid
        receiver_valid positive distinct

  abbrev t : Transaction
  t =
      Loading.t session answers env cmd m w sender_read receiver_read sender_valid receiver_valid
        positive distinct

  abbrev p : Parties
  p =
      Loading.p session answers env cmd m w sender_read receiver_read sender_valid receiver_valid
        positive distinct

  at_tx : start.transactions p.tx ≡ t
  at_tx =
      Loading.at_tx session answers env cmd m w sender_read receiver_read sender_valid
        receiver_valid positive distinct

  at_sender : start.accounts p.sender ≡ a
  at_sender =
      Loading.at_sender session answers env cmd m w sender_read receiver_read sender_valid
        receiver_valid positive distinct

  at_receiver : start.accounts p.receiver ≡ b
  at_receiver =
      Loading.at_receiver session answers env cmd m w sender_read receiver_read sender_valid
        receiver_valid positive distinct

  other : p.sender ≢ p.receiver
  other = λ h. absurd (omega arith)

  -- The sender's object after the debit, and its event.
  abbrev a2 : Account
  a2 = debited (env.supply (suc (suc w.draws))) m t.id xb a

  paid : debit (env.supply (suc (suc w.draws))) m t.id (start.accounts p.sender) ≡ ok a2
  paid =
      ap (debit (env.supply (suc (suc w.draws))) m t.id) at_sender
      ∙ debit_active (env.supply (suc (suc w.draws))) m t.id a xb sender_active covered

  abbrev t1 : Transaction
  t1 = processed (env.supply (suc w.draws)) t

  abbrev vc : SqlWorld D L
  vc = record (Moves.w2 env p m start t at_tx refl a2 paid) { draws = suc (suc (suc start.draws)) }

  moves : move_money env p m start ≡ (err e, vc)
  moves =
      Moves.move_money-credit_err env p m start t at_tx refl a2 paid other e
        (ap (credit (env.supply (suc (suc (suc w.draws)))) m t.id) at_receiver ∙ refused _ _)

  abbrev u : Transaction
  u = failing (env.supply vc.draws) (failure_code e) (message env.uuid_text e) t1

  abbrev noted : SqlWorld D L
  noted = Execution.failed_world env p.tx e t1 vc

  abbrev saved : SqlWorld D L
  saved = write (session.add_transaction (TransactionMapper.to_new_orm u)) noted

  at_u : noted.transactions p.tx ≡ u
  at_u = update_self vc.transactions p.tx u

  kept : transaction_save session p.tx noted ≡ (ok tt, saved)
  unfolding new_root
  kept = transaction_save_new session answers p.tx noted u at_u unused

  -- The messages of the debit, once the failed transaction is staged.
  abbrev ev : DomainEvent
  ev = record {
    event_id = (env.supply (suc (suc w.draws))).event_id;
    occurred_at = (env.supply (suc (suc w.draws))).occurred_at;
    body =
        of_account (balance_debited a.id t.id m.amount (CurrencyEnum.value m.currency) xb.amount);
  }

  abbrev row : TransactionRow
  row = TransactionMapper.to_new_orm u

  abbrev done : SqlWorld D L
  done = Outbox.drained session p.sender p.receiver a2 b saved

  abbrev y : SqlWorld D L
  y = write (λ _. answers.committed done.store.db) done

  commits : commit session saved ≡ (ok tt, y)
  commits =
      Outbox.commit_ok session p.sender p.receiver a2 b saved refl refl other
        (update_self start.accounts p.sender a2)
        (update_ne start.accounts p.sender a2 p.receiver other ∙ at_receiver) answers

  executed : execute env (unit_of_work session) cmd m (enter session w) ≡ (err e, y)
  executed =
      Loading.execution_err session answers env cmd m w sender_read receiver_read sender_valid
        receiver_valid positive distinct e vc saved y t1 moves
        (update_self start.transactions p.tx t1) refl kept commits

  written :
      done.store.db
      ≡ session.add_outbox
          (outbox_row ev)
          (session.add_transaction row (session.open_session w.store.db))
  written =
      rw
        (
          (to_domain_lem sender_row a sender_valid).1,
          (to_domain_lem receiver_row b receiver_valid).1,
        )
        refl

  durable :
      views.durable (exit session true y).store.db
      ≡ with_message (outbox_row ev) (with_transaction row (views.durable w.store.db))
  durable =
      views.close_durable (session.rollback y.store.db)
      ∙ (views.rollback_durable y.store.db
          ∙ (views.commit_ok done.store.db y.store.db (answers.commits done.store.db)
              ∙ rw
                  (
                    written,
                    views.add_outbox_staged (outbox_row ev)
                        (session.add_transaction row (session.open_session w.store.db)),
                    views.add_transaction_staged row (session.open_session w.store.db),
                    views.open_staged w.store.db,
                  )
                  refl))

  -- The database answers, both rows are read as accounts, the amount is positive and the two ids
  -- differ, the id drawn for the transaction is new, the active sender covers the amount, and the
  -- receiver's account refuses the credit: the error is raised again, the table of accounts is
  -- unchanged, the transaction is a new row with the status failed and the error's code, and
  -- nothing is published. Yet the outbox gains a message, of the debit that was not written, and no
  -- message of the failure.
  pub credit-PhantomDebit :
      let (answer, w') =
        with_uow (unit_of_work session) (execute env (unit_of_work session) cmd m) w in
      PhantomDebit views e a m xb (env.supply w.draws).uuid w w' answer
  unfolding new_root TransactionMapper.to_new_orm TransactionStatusEnum.value
  credit-PhantomDebit = rw executed (record {
    answered = refl;
    event = ev;
    record_row = row;
    accounts = ap (λ (x : Tables). x.accounts) durable;
    outbox = ap (λ (x : Tables). x.outbox) durable;
    transactions = ap (λ (x : Tables). x.transactions) durable;
    body = refl;
    status = refl;
    code = refl;
    silent = refl;
  })
