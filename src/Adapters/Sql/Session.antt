-- ===== src/Adapters/Sql/Session.antt =====
-- The session of SQLAlchemy as a parameter, and the state of the unit of work over it. A statement
-- may raise; the locks on rows that `FOR UPDATE` takes are left out, as one request runs at a time.
use banking_transaction_syst.Prelude.{ℕ, String, Bool, Option, List, [], ◌∷◌, ◌++◌}
use banking_transaction_syst.Prelude.Dict.{Dict}
use banking_transaction_syst.Domain.Exceptions.{Result}
use banking_transaction_syst.Domain.Events.Payload.{Field}
use banking_transaction_syst.Application.Runtime.{World, Proc}
use banking_transaction_syst.Adapters.Mappers.AccountMapper.{AccountRow}
use banking_transaction_syst.Adapters.Mappers.TransactionMapper.{TransactionRow}

-- `OutboxMessageORM` as the unit of work makes it. The payload is kept as the dictionary that
-- `to_json` prints, and `aggregate_id` as the UUID; `id` and `created_at` are set by the database.
pub record OutboxRow : Type 0 where
  pub event_type : String
  pub payload : Dict String Field
  pub aggregate_id : ℕ
  pub aggregate_type : String
  pub published : Bool
  pub published_at : Option ℕ

-- What the adapters call of `async_sessionmaker` and `AsyncSession`, on a state `D` of the database
-- and of the session. `select_account` is told whether it reads for an update; `change_account`
-- writes the attributes of a row that was read.
pub record Session (D : Type 0) : Type 0 where
  pub open_session : D → D
  pub select_account : Bool → ℕ → D → Result (Option AccountRow)
  pub get_account : ℕ → D → Result (Option AccountRow)
  pub add_account : AccountRow → D → D
  pub change_account : AccountRow → D → D
  pub select_transaction : ℕ → D → Result (Option TransactionRow)
  pub select_by_key : String → D → Result (Option TransactionRow)
  pub get_transaction : ℕ → D → Result (Option TransactionRow)
  pub add_transaction : TransactionRow → D → D
  pub change_transaction : TransactionRow → D → D
  pub add_outbox : OutboxRow → D → D
  pub commit : D → Result (Unit {0}) × D
  pub rollback : D → D
  pub close : D → D

-- The session with the lists `seen` of the two repositories.
pub record SqlStore (D : Type 0) : Type 0 where
  pub db : D
  pub accounts_seen : List ℕ
  pub transactions_seen : List ℕ

abbrev pub SqlWorld : Type 0 → Type 0 → Type 0
SqlWorld D L = World (SqlStore D) L

abbrev pub SqlProc : Type 0 → Type 0 → Type 0 → Type 0
SqlProc D L A = Proc (SqlStore D) L A

module _ {D L : Type 0} where
  -- A statement that reads.
  abbrev pub query : {A : Type 0} → (D → Result A) → SqlProc D L A
  query read w = (read w.store.db, w)

  -- A call on the session that only changes its state.
  abbrev pub write : (D → D) → SqlWorld D L → SqlWorld D L
  write f w = record w { store = record w.store { db = f w.store.db } }

  -- `self.seen.append(account)`
  abbrev pub see_account : ℕ → SqlWorld D L → SqlWorld D L
  see_account ref w = record w {
    store = record w.store { accounts_seen = w.store.accounts_seen ++ (ref ∷ []) };
  }

  abbrev pub see_transaction : ℕ → SqlWorld D L → SqlWorld D L
  see_transaction ref w = record w {
    store = record w.store { transactions_seen = w.store.transactions_seen ++ (ref ∷ []) };
  }
