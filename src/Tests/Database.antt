-- ===== src/Tests/Database.antt =====
-- A database of three tables with a session, and two rows of accounts, for the tests.
use banking_transaction_syst.Prelude.{ℕ, refl, ap, sym, Option, none, some, []}
use banking_transaction_syst.Prelude.Tests.{nat_eq, ◌==◌, if◌then◌else◌}
use banking_transaction_syst.Prelude.Dict.{update}
use banking_transaction_syst.Domain.Exceptions.{Result, ok}
use banking_transaction_syst.Domain.Account.{Account}
use banking_transaction_syst.Adapters.Mappers.AccountMapper
use banking_transaction_syst.Adapters.Mappers.AccountMapper.{AccountRow}
use banking_transaction_syst.Adapters.Mappers.TransactionMapper.{TransactionRow}
use banking_transaction_syst.Adapters.Sql.Session.{Session, SqlWorld}
use banking_transaction_syst.Adapters.Sql.Views.{
  Tables, Views, Answers, Fresh, with_account, with_transaction, with_message,
}
use banking_transaction_syst.Tests.Data.{alice, pending_tx}

-- What is durable, what the session has staged, and the rows that it reads.
pub record Db : Type 0 where
  pub durable : Tables
  pub staged : Tables
  pub rows : ℕ → Option AccountRow
  pub transaction_rows : ℕ → Option TransactionRow

-- It knows no idempotency key.
abbrev pub session : Session Db
session = record {
  open_session = λ d. record {
    durable = d.durable;
    staged = d.durable;
    rows = d.durable.accounts;
    transaction_rows = d.durable.transactions;
  };
  select_account = λ for_update id d. ok (d.rows id);
  get_account = λ id d. ok (d.rows id);
  add_account = λ row d. record d { staged = with_account row d.staged };
  change_account = λ row d. record d {
    staged = with_account row d.staged;
    rows = update d.rows row.id (some row);
  };
  select_transaction = λ id d. ok (d.transaction_rows id);
  select_by_key = λ key d. ok none;
  get_transaction = λ id d. ok (d.transaction_rows id);
  add_transaction = λ row d. record d { staged = with_transaction row d.staged };
  change_transaction = λ row d. record d { staged = with_transaction row d.staged };
  add_outbox = λ row d. record d { staged = with_message row d.staged };
  commit = λ d. (ok tt, record d { durable = d.staged });
  rollback = λ d. record d { staged = d.durable };
  close = λ d. d;
}

abbrev pub views : Views session
views = record {
  durable = λ d. d.durable;
  staged = λ d. d.staged;
  open_durable = λ d. refl;
  open_staged = λ d. refl;
  add_account_durable = λ row d. refl;
  add_account_staged = λ row d. refl;
  change_account_durable = λ row d. refl;
  change_account_staged = λ row d. refl;
  add_transaction_durable = λ row d. refl;
  add_transaction_staged = λ row d. refl;
  change_transaction_durable = λ row d. refl;
  change_transaction_staged = λ row d. refl;
  add_outbox_durable = λ row d. refl;
  add_outbox_staged = λ row d. refl;
  commit_ok = λ d d' h. ap (λ (q : Result (Unit {0}) × Db). q.1.durable) (sym h);
  commit_err = λ d d' e h. absurd (cc h);
  rollback_durable = λ d. refl;
  close_durable = λ d. refl;
}

abbrev pub answers : Answers session
answers = record {
  rows = λ d. d.rows;
  transaction_rows = λ d. d.transaction_rows;
  select_answers = λ for_update id d. refl;
  get_answers = λ id d. refl;
  change_rows = λ row d. refl;
  get_transaction_answers = λ id d. refl;
  change_transaction_rows = λ row d. refl;
  committed = λ d. record d { durable = d.staged };
  commits = λ d. refl;
}

abbrev pub fresh : Fresh views answers
fresh = record { open_rows = λ d id. refl; open_transaction_rows = λ d id. refl }

-- The tables with Alice's row as 1 and another account's as 2.
abbrev pub tables_of : Account → Tables
tables_of b = record {
  accounts = λ id.
      if id == 1
      then some (AccountMapper.to_new_orm alice)
      else if id == 2
      then some (AccountMapper.to_new_orm b)
      else none;
  transactions = λ id. none;
  outbox = [];
}

abbrev pub sql_world : {L : Type 0} → L → Account → SqlWorld Db L
sql_world locks b = record {
  accounts = λ _. alice;
  transactions = λ _. pending_tx;
  next = 0;
  store = record {
    db = record {
      durable = tables_of b;
      staged = tables_of b;
      rows = λ id. none;
      transaction_rows = λ id. none;
    };
    accounts_seen = [];
    transactions_seen = [];
  };
  locks = locks;
  published = [];
  draws = 0;
}
