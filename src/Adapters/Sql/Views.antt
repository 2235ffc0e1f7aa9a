-- ===== src/Adapters/Sql/Views.antt =====
-- What the adapters rely on of the database and its session: what is durable, what a commit would
-- make durable, and the rows that the session reads.
use banking_transaction_syst.Prelude.{ℕ, ◌≡◌, Bool, Option, some, List, [], ◌∷◌, ◌++◌}
use banking_transaction_syst.Prelude.Tests.{nat_eq}
use banking_transaction_syst.Prelude.Dict.{update}
use banking_transaction_syst.Domain.Exceptions.{Exn, ok, err}
use banking_transaction_syst.Adapters.Mappers.AccountMapper.{AccountRow}
use banking_transaction_syst.Adapters.Mappers.TransactionMapper.{TransactionRow}
use banking_transaction_syst.Adapters.Sql.Session.{OutboxRow, Session}

-- The three tables.
pub record Tables : Type 0 where
  pub accounts : ℕ → Option AccountRow
  pub transactions : ℕ → Option TransactionRow
  pub outbox : List OutboxRow

abbrev pub with_account : AccountRow → Tables → Tables
with_account row t = record t { accounts = update t.accounts row.id (some row) }

abbrev pub with_transaction : TransactionRow → Tables → Tables
with_transaction row t = record t { transactions = update t.transactions row.id (some row) }

abbrev pub with_message : OutboxRow → Tables → Tables
with_message row t = record t { outbox = t.outbox ++ (row ∷ []) }

-- `durable` is what survives; `staged` is what `commit` makes durable. A session that is opened has
-- nothing to write, every write is staged and only a commit that returns changes what is durable.
pub record Views {D : Type 0} (session : Session D) : Type 0 where
  pub durable : D → Tables
  pub staged : D → Tables
  pub open_durable : (d : D) → durable (session.open_session d) ≡ durable d
  pub open_staged : (d : D) → staged (session.open_session d) ≡ durable d
  pub add_account_durable :
      (row : AccountRow) (d : D) → durable (session.add_account row d) ≡ durable d
  pub add_account_staged :
      (row : AccountRow) (d : D) → staged (session.add_account row d) ≡ with_account row (staged d)
  pub change_account_durable :
      (row : AccountRow) (d : D) → durable (session.change_account row d) ≡ durable d
  pub change_account_staged :
      (row : AccountRow) (d : D)
      → staged (session.change_account row d) ≡ with_account row (staged d)
  pub add_transaction_durable :
      (row : TransactionRow) (d : D) → durable (session.add_transaction row d) ≡ durable d
  pub add_transaction_staged :
      (row : TransactionRow) (d : D)
      → staged (session.add_transaction row d) ≡ with_transaction row (staged d)
  pub change_transaction_durable :
      (row : TransactionRow) (d : D) → durable (session.change_transaction row d) ≡ durable d
  pub change_transaction_staged :
      (row : TransactionRow) (d : D)
      → staged (session.change_transaction row d) ≡ with_transaction row (staged d)
  pub add_outbox_durable :
      (row : OutboxRow) (d : D) → durable (session.add_outbox row d) ≡ durable d
  pub add_outbox_staged :
      (row : OutboxRow) (d : D) → staged (session.add_outbox row d) ≡ with_message row (staged d)
  pub commit_ok : (d d' : D) → session.commit d ≡ (ok tt, d') → durable d' ≡ staged d
  pub commit_err : (d d' : D) (e : Exn) → session.commit d ≡ (err e, d') → durable d' ≡ durable d
  pub rollback_durable : (d : D) → durable (session.rollback d) ≡ durable d
  pub close_durable : (d : D) → durable (session.close d) ≡ durable d

-- The database answers every statement: a row that the session has read and changed is seen as
-- changed, and a commit succeeds.
pub record Answers {D : Type 0} (session : Session D) : Type 0 where
  pub rows : D → ℕ → Option AccountRow
  pub transaction_rows : D → ℕ → Option TransactionRow
  pub select_answers :
      (for_update : Bool) (id : ℕ) (d : D) → session.select_account for_update id d ≡ ok (rows d id)
  pub get_answers : (id : ℕ) (d : D) → session.get_account id d ≡ ok (rows d id)
  pub change_rows :
      (row : AccountRow) (d : D)
      → rows (session.change_account row d) ≡ update (rows d) row.id (some row)
  pub get_transaction_answers :
      (id : ℕ) (d : D) → session.get_transaction id d ≡ ok (transaction_rows d id)
  pub change_transaction_rows :
      (row : AccountRow) (d : D)
      → transaction_rows (session.change_account row d) ≡ transaction_rows d
  pub committed : D → D
  pub commits : (d : D) → session.commit d ≡ (ok tt, committed d)

-- A session that is opened reads the durable rows.
pub record Fresh {D : Type 0} {session : Session D} (views : Views session)
    (answers : Answers session) : Type 0 where
  pub open_rows :
      (d : D) (id : ℕ) → answers.rows (session.open_session d) id ≡ (views.durable d).accounts id
  pub open_transaction_rows :
      (d : D) (id : ℕ)
      → answers.transaction_rows (session.open_session d) id ≡ (views.durable d).transactions id
