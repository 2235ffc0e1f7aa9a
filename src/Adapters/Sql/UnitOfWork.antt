-- ===== src/Adapters/Sql/UnitOfWork.antt =====
-- `SQLAlchemyUnitOfWork`, with the messages that it writes to the outbox.
use banking_transaction_syst.Prelude.{ℕ, Bool, false, none, List, [], ◌∷◌}
use banking_transaction_syst.Prelude.Tests.{if◌then◌else◌}
use banking_transaction_syst.Domain.Exceptions.{Result, ok, err}
use banking_transaction_syst.Domain.Events.{DomainEvent, event_type}
use banking_transaction_syst.Domain.Events.Payload.{to_dict}
use banking_transaction_syst.Application.TransferService.{collect_account, collect_transaction}
use banking_transaction_syst.Application.Ports.{UnitOfWork}
use banking_transaction_syst.Adapters.Sql.Session.{
  OutboxRow, Session, SqlStore, SqlWorld, SqlProc, write,
}
use banking_transaction_syst.Adapters.Sql.Repositories.{account_repository, transaction_repository}

-- The message for an event.
unfoldable pub outbox_row : DomainEvent → OutboxRow
outbox_row e = record {
  event_type = event_type e;
  payload = to_dict e;
  aggregate_id = e.event_id;
  aggregate_type = event_type e;
  published = false;
  published_at = none;
}

module _ {D : Type 0} (session : Session D) where
  -- The messages of one aggregate.
  abbrev pub add_messages : List DomainEvent → D → D
  add_messages [] d = d
  add_messages (e ∷ es) d = add_messages es (session.add_outbox (outbox_row e) d)

module _ {D L : Type 0} (session : Session D) where
  abbrev pub store_account_events : List ℕ → SqlWorld D L → SqlWorld D L
  store_account_events [] w = w
  store_account_events (ref ∷ refs) w =
      let (events, w1) = collect_account ref w in
      store_account_events refs (write (add_messages session events) w1)

  abbrev pub store_transaction_events : List ℕ → SqlWorld D L → SqlWorld D L
  store_transaction_events [] w = w
  store_transaction_events (ref ∷ refs) w =
      let (events, w1) = collect_transaction ref w in
      store_transaction_events refs (write (add_messages session events) w1)

  -- `_collect_and_store_events`
  unfoldable pub collect_and_store_events : SqlWorld D L → SqlWorld D L
  collect_and_store_events w =
      store_transaction_events w.store.transactions_seen
        (store_account_events w.store.accounts_seen w)

  -- The end of `commit`, after the session's commit returned or raised.
  unfoldable pub settle : Result (Unit {0}) × D → SqlProc D L (Unit {0})
  settle (ok _, d) w = (ok tt, write (λ _. d) w)
  settle (err e, d) w = (err e, write (λ _. session.rollback d) w)

  unfoldable pub commit : SqlProc D L (Unit {0})
  unfolding collect_and_store_events settle
  commit w =
      let stored = collect_and_store_events w in settle (session.commit stored.store.db) stored

  -- `__aenter__`
  abbrev pub enter : SqlWorld D L → SqlWorld D L
  enter w = record w {
    store = record {
      db = session.open_session w.store.db;
      accounts_seen = [];
      transactions_seen = [];
    };
  }

  -- `__aexit__`
  abbrev pub exit : Bool → SqlWorld D L → SqlWorld D L
  exit raised w = write (λ d. session.close (if raised then session.rollback d else d)) w

  abbrev pub unit_of_work : UnitOfWork (SqlStore D) L
  unit_of_work = record {
    accounts = account_repository session;
    transactions = transaction_repository session;
    enter = enter;
    exit = exit;
    commit = commit;
  }
