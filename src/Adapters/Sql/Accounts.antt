-- ===== src/Adapters/Sql/Accounts.antt =====
-- `AccountService` over the database.
use banking_transaction_syst.Prelude.{
  ℕ, suc, ◌≡◌, refl, ap, sym, ◌∙◌, false, some, none, [], ◌∷◌, map,
}
use banking_transaction_syst.Prelude.Tests.{nat_eq}
use banking_transaction_syst.Prelude.Dict.{update, update_self}
use banking_transaction_syst.Domain.Enums.CurrencyEnum.{Currency}
use banking_transaction_syst.Domain.Amount.{Money}
use banking_transaction_syst.Domain.Money.{decimal, money}
use banking_transaction_syst.Domain.Money.Rounding.{IsMoney, money-IsMoney}
use banking_transaction_syst.Domain.Exceptions.{Result, ok}
use banking_transaction_syst.Domain.Events.{event_type}
use banking_transaction_syst.Domain.Account.{Account, create}
use banking_transaction_syst.Domain.Account.Lifecycle.{create_total, create_lem}
use banking_transaction_syst.Application.Runtime.{Env, ◌>>◌, lift, make_account}
use banking_transaction_syst.Application.Runtime.Steps.{bind_ok, make_account_ok}
use banking_transaction_syst.Application.Ports.{with_uow, failed}
use banking_transaction_syst.Application.Dtos.{CreateAccountCommand, AccountDto, account_dto}
use banking_transaction_syst.Application.TransferService.{parse_currency}
use banking_transaction_syst.Application.AccountService.{create_account}
use banking_transaction_syst.Adapters.Mappers.AccountMapper
use banking_transaction_syst.Adapters.Mappers.AccountMapper.{AccountRow}
use banking_transaction_syst.Adapters.Sql.Session.{Session, SqlWorld, write}
use banking_transaction_syst.Adapters.Sql.Repositories.{account_save}
use banking_transaction_syst.Adapters.Sql.UnitOfWork.{
  collect_and_store_events, settle, commit, enter, exit, unit_of_work,
}
use banking_transaction_syst.Adapters.Sql.Views.{Views, Answers, Tables, with_account}
use banking_transaction_syst.Adapters.Sql.Saving.{account_save_new}

-- A new account in the database: one row more, and no message.
pub record SqlCreated {D L : Type 0} {session : Session D} (views : Views session)
    (cmd : CreateAccountCommand) (m : Money) (id : ℕ) (w w' : SqlWorld D L)
    (answer : Result AccountDto) : Type 0 where
  pub answered : answer ≡ ok (account_dto (w'.accounts w.next))
  pub row : AccountRow
  pub accounts :
      (views.durable w'.store.db).accounts
      ≡ update (views.durable w.store.db).accounts id (some row)
  pub stored : row ≡ AccountMapper.to_new_orm (w'.accounts w.next)
  pub owner : (w'.accounts w.next).owner_id ≡ cmd.owner_id
  pub balance : (w'.accounts w.next).balance ≡ m
  pub outbox : (views.durable w'.store.db).outbox ≡ (views.durable w.store.db).outbox
  pub published : w'.published ≡ w.published
  pub pending : map event_type (w'.accounts w.next).domain_events ≡ "AccountCreated" ∷ []

module _ {D L : Type 0} (session : Session D) (views : Views session) (answers : Answers session)
    (env : Env) (cmd : CreateAccountCommand) (c : Currency) (m : Money) (w : SqlWorld D L)
    (known : parse_currency cmd.currency ≡ ok c)
    (rounded : money (decimal cmd.initial_balance) c ≡ ok m)
    (unused : answers.rows (session.open_session w.store.db) (env.supply w.draws).uuid ≡ none) where
  module _ (a : Account) (made : create (env.supply w.draws) cmd.owner_id c (some m) ≡ ok a)
      (a_id : a.id ≡ (env.supply w.draws).uuid) where
    abbrev made_world : SqlWorld D L
    made_world = record w {
      accounts = update w.accounts w.next a;
      next = suc w.next;
      draws = suc w.draws;
    }

    here : made_world.accounts w.next ≡ a
    here = update_self w.accounts w.next a

    abbrev d1 : D
    d1 = session.add_account (AccountMapper.to_new_orm a) (session.open_session w.store.db)

    abbrev saved : SqlWorld D L
    saved = write (λ _. d1) (enter session made_world)

    abbrev done : SqlWorld D L
    done = write (λ _. answers.committed d1) saved

    saves : account_save session w.next (enter session made_world) ≡ (ok tt, saved)
    saves =
        account_save_new session answers w.next (enter session made_world) a here
          (ap (answers.rows (session.open_session w.store.db)) a_id ∙ unused)

    commits : commit session saved ≡ (ok tt, done)
    unfolding commit settle collect_and_store_events
    commits = rw (answers.commits d1) refl

    abbrev after : SqlWorld D L
    after = exit session false done

    block :
        (account_save session w.next >> commit session) (enter session made_world) ≡ (ok tt, done)
    block = bind_ok (account_save session w.next) _ saves ∙ commits

    created :
        create_account env (unit_of_work session) cmd w
        ≡ (ok (account_dto (after.accounts w.next)), after)
    unfolding create_account
    created =
        bind_ok (lift (parse_currency cmd.currency)) _ (ap (λ r. (r, w)) known)
        ∙ (bind_ok (lift (money (decimal cmd.initial_balance) c)) _ (ap (λ r. (r, w)) rounded)
            ∙ (bind_ok (make_account env (λ d. create d cmd.owner_id c (some m))) _
                  (make_account_ok env w (λ d. create d cmd.owner_id c (some m)) a made)
                ∙ bind_ok
                    (with_uow (unit_of_work session)
                      (account_save session w.next >> commit session))
                    _ {w = made_world}
                    (ap
                      (λ (q : Result (Unit {0}) × SqlWorld D L).
                        (q.0, exit session (failed q.0) q.1))
                      block)))

    durable :
        views.durable after.store.db
        ≡ with_account (AccountMapper.to_new_orm a) (views.durable w.store.db)
    durable =
        views.close_durable done.store.db
        ∙ (views.commit_ok d1 (answers.committed d1) (answers.commits d1)
            ∙ (views.add_account_staged (AccountMapper.to_new_orm a)
                  (session.open_session w.store.db)
                ∙ ap (with_account (AccountMapper.to_new_orm a)) (views.open_staged w.store.db)))

    events : IsMoney m → map event_type a.domain_events ≡ "AccountCreated" ∷ []
    unfolding event_type
    events valid =
        rw
          (create_lem (env.supply w.draws) cmd.owner_id c (some m) a
            (λ x h. let same : m ≡ x = cc h in rw (← same) valid) made).3
          refl

    reported :
        IsMoney m
        → a.owner_id ≡ cmd.owner_id
        → a.balance ≡ m
        → SqlCreated views cmd m
            (env.supply w.draws).uuid
            w
            after
            (ok (account_dto (after.accounts w.next)))
    unfolding AccountMapper.to_new_orm
    reported valid ho hb = record {
      answered = refl;
      row = AccountMapper.to_new_orm a;
      accounts =
          ap (λ (t : Tables). t.accounts) durable
          ∙ ap
              (λ (i : ℕ).
                update (views.durable w.store.db).accounts i (some (AccountMapper.to_new_orm a)))
              a_id;
      stored = ap AccountMapper.to_new_orm (sym here);
      owner = ap (λ (x : Account). x.owner_id) here ∙ ho;
      balance = ap (λ (x : Account). x.balance) here ∙ hb;
      outbox = ap (λ (t : Tables). t.outbox) durable;
      published = refl;
      pending = ap (λ (x : Account). map event_type x.domain_events) here ∙ events valid;
    }

  -- The database answers, the currency and the opening balance parse, and the id drawn for the
  -- account is new: the table of accounts has the row of the new account, which belongs to the
  -- owner and has the balance. Its creation event is left pending on the object: no message is
  -- added to the outbox and nothing is published.
  pub create_account-SqlCreated :
      let (answer, w') = create_account env (unit_of_work session) cmd w in
      SqlCreated views cmd m (env.supply w.draws).uuid w w' answer
  create_account-SqlCreated =
      let (valid, same) = money-IsMoney (decimal cmd.initial_balance) c m rounded in
      let (a, made, id, ho, hb, hs) = create_total (env.supply w.draws) cmd.owner_id c m same in
      rw (created a made id) (reported a made id valid ho hb)
