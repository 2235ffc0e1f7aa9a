-- ===== src/Adapters/Sql/Loading.antt =====
-- A transfer in the database up to the start of the move: both rows are read as new objects, and the
-- transaction is made.
use banking_transaction_syst.Prelude.{ℕ, suc, ◌≡◌, ◌≢◌, refl, true, false, some, [], arith}
use banking_transaction_syst.Prelude.Tests.{nat_eq, nat_beq_iff}
use banking_transaction_syst.Prelude.Dict.{update, update_self}
use banking_transaction_syst.Domain.Amount.{Money}
use banking_transaction_syst.Domain.Money.{is_zero}
use banking_transaction_syst.Domain.Enums.TransactionStatusEnum.{processing}
use banking_transaction_syst.Domain.Enums.TransactionTypeEnum.{transfer}
use banking_transaction_syst.Domain.Exceptions.{Exn, ok, err}
use banking_transaction_syst.Domain.Account as Entity
use banking_transaction_syst.Domain.Account.{Account}
use banking_transaction_syst.Domain.Transaction.{Transaction, initiated}
use banking_transaction_syst.Domain.Transaction.Histories.{initiate_ok}
use banking_transaction_syst.Application.Runtime.{Env, new_account}
use banking_transaction_syst.Application.Dtos.{TransferCommand}
use banking_transaction_syst.Application.TransferService.{Parties, execute, persist, move_money}
use banking_transaction_syst.Application.TransferService.Execution
use banking_transaction_syst.Adapters.Mappers.AccountMapper
use banking_transaction_syst.Adapters.Mappers.AccountMapper.{AccountRow}
use banking_transaction_syst.Adapters.Sql.Session.{Session, SqlWorld, SqlProc, see_account}
use banking_transaction_syst.Adapters.Sql.Repositories.{
  loaded_account, account_get, transaction_save,
}
use banking_transaction_syst.Adapters.Sql.UnitOfWork.{enter, commit, unit_of_work}
use banking_transaction_syst.Adapters.Sql.Views.{Answers}

-- An account that is read has the id of its row and no event.
pub to_domain_lem :
    (orm : AccountRow) (a : Account)
    → AccountMapper.to_domain orm ≡ ok a
    → (a.id ≡ orm.id) × (a.domain_events ≡ [])
unfolding AccountMapper.to_domain Entity.reconstitute
to_domain_lem orm a h = ground arith

module _ {D L : Type 0} (session : Session D) (answers : Answers session) where
  -- The process once a row was read as the object `a`.
  abbrev pub read : Account → SqlWorld D L → SqlWorld D L
  read a w =
      see_account w.next (record w { accounts = update w.accounts w.next a; next = suc w.next })

  pub account_get_ok :
      (id : ℕ) (orm : AccountRow) (a : Account) (w : SqlWorld D L)
      → answers.rows w.store.db id ≡ some orm
      → AccountMapper.to_domain orm ≡ ok a
      → account_get session true id w ≡ (ok (some w.next), read a w)
  unfolding account_get loaded_account new_account
  account_get_ok id orm a w h e = rw (answers.select_answers true id w.store.db, h, e) refl

  module _ (env : Env) (cmd : TransferCommand) (m : Money) (w : SqlWorld D L)
      {sender_row receiver_row : AccountRow} {a b : Account}
      (sender_read : answers.rows (session.open_session w.store.db) cmd.from_account_id
        ≡ some sender_row)
      (receiver_read : answers.rows (session.open_session w.store.db) cmd.to_account_id
        ≡ some receiver_row)
      (sender_valid : AccountMapper.to_domain sender_row ≡ ok a)
      (receiver_valid : AccountMapper.to_domain receiver_row ≡ ok b) (positive : is_zero m ≡ false)
      (distinct : cmd.from_account_id ≢ cmd.to_account_id) where
    abbrev pub began : SqlWorld D L
    began = enter session w

    abbrev pub loaded : SqlWorld D L
    loaded = read b (read a (enter session w))

    pub got_sender :
        account_get session true cmd.from_account_id (enter session w)
        ≡ (ok (some w.next), read a (enter session w))
    got_sender =
        account_get_ok cmd.from_account_id sender_row a (enter session w) sender_read sender_valid

    pub got_receiver :
        account_get session true cmd.to_account_id (read a (enter session w))
        ≡ (ok (some (suc w.next)), loaded)
    got_receiver =
        account_get_ok cmd.to_account_id receiver_row b (read a (enter session w)) receiver_read
          receiver_valid

    abbrev pub t : Transaction
    t =
        initiated (env.supply w.draws) cmd.from_account_id cmd.to_account_id m cmd.idempotency_key
          transfer

    pub made : Execution.begin cmd m (env.supply w.draws) ≡ ok t
    made =
        initiate_ok (env.supply w.draws) cmd.from_account_id cmd.to_account_id m cmd.idempotency_key
          transfer positive distinct

    abbrev pub p : Parties
    p = record { sender = w.next; receiver = suc w.next; tx = suc (suc w.next) }

    -- The process when the money starts to move.
    abbrev pub start : SqlWorld D L
    start =
        Execution.wc env (unit_of_work session) cmd m began (read a began) w.next got_sender loaded
          (suc w.next) got_receiver t made

    pub at_sender : start.accounts w.next ≡ a
    at_sender = ground (arith, nat_beq_iff (suc w.next) w.next, nat_beq_iff w.next w.next)

    pub at_receiver : start.accounts (suc w.next) ≡ b
    at_receiver = ground (arith, nat_beq_iff (suc w.next) (suc w.next))

    pub at_tx : start.transactions loaded.next ≡ t
    at_tx = update_self loaded.transactions loaded.next t

    abbrev begun : SqlProc D L Parties
    begun = execute env (unit_of_work session) cmd m

    -- The money moves: what remains is to persist.
    pub execution_ok :
        (w' : SqlWorld D L)
        → move_money env p m start ≡ (ok tt, w')
        → begun (enter session w) ≡ persist env (unit_of_work session) p w'
    execution_ok =
        Execution.execute_ok env (unit_of_work session) cmd m began (read a began) w.next got_sender
          loaded (suc w.next) got_receiver t made

    -- The move raises on a transaction that is being processed.
    pub execution_err :
        (e : Exn) (w' x y : SqlWorld D L) (u : Transaction)
        → move_money env p m start ≡ (err e, w')
        → w'.transactions p.tx ≡ u
        → u.status ≡ processing
        → transaction_save session p.tx (Execution.failed_world env p.tx e u w') ≡ (ok tt, x)
        → commit session x ≡ (ok tt, y)
        → begun (enter session w) ≡ (err e, y)
    execution_err =
        Execution.execute_err env (unit_of_work session) cmd m began (read a began) w.next
          got_sender loaded (suc w.next) got_receiver t made
