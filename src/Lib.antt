-- ===== src/Lib.antt =====
-- The verification library of the banking transaction system.
--
-- The program is a service in layers. The domain (src/domain) has the value object `Money`, the
-- enumerations, the exceptions, the events and the aggregates `Account` and `Transaction`; the
-- application (src/application) has the commands and snapshots, the ports and the two services;
-- the adapters (src/adapters) implement the ports. `TransferService.initiate` looks up the
-- idempotency key, builds a `Money`, takes the locks of both accounts, opens the unit of work,
-- loads the accounts, moves the money through the aggregates, saves and commits, and then
-- publishes the events that the aggregates recorded.
--
-- Files:
-- - Prelude and its children: names of the standard libraries, tests into Bool with their
--   correctness (Tests), integers over the native numbers (Int), dictionaries and updates (Dict),
--   texts as character codes (Text), lists (Lists).
-- - Domain/Enums: src/domain/value_objects/enums.py, one module per class.
-- - Domain/Amount, Domain/Money: src/domain/value_objects/money.py; `money` is the constructor with
--   `__post_init__`, `add` and `sub` are `__add__` and `__sub__`. Money/Rounding and
--   Money/Arithmetic hold the lemmas.
-- - Domain/Exceptions: src/domain/exceptions, with class names and messages.
-- - Domain/Events, Domain/Base: src/domain/events and src/domain/entities/base.py; Events/Payload is
--   `to_dict`.
-- - Domain/Account: src/domain/entities/account.py; Account/Lifecycle is about histories of calls,
--   Account/Replay about the events as a view of the account, Account/Identity what no call changes.
-- - Domain/Transaction: src/domain/entities/transaction.py; Transaction/Lifecycle has the lifecycle as
--   a step relation, Transaction/Histories what histories of calls reach, Transaction/Identity what
--   no call changes.
-- - Application/Runtime: the running process. Aggregates live behind references, because repository
--   and service share one object; a coroutine maps the process to a result and the process after it,
--   so what was written before an exception stays written. Runtime/Steps, Runtime/Keeps and
--   Runtime/Triples hold the rules to reason about coroutines.
-- - Application/Ports, Application/Dtos: src/application/ports/outbound and src/application/dtos.
-- - Application/TransferService, Application/AccountService: src/application/services. The children
--   of TransferService follow a request over any storage and any lock manager: Moves (step 7),
--   Execution (steps 5 to 9), Requests (steps 1 to 4), Publication (step 10), Invariant (what the
--   whole request keeps, given an interface of laws for the storage), and LockOrder (requests that
--   wait for each other's locks).
-- - Adapters/InMemory: the in-memory repositories and unit of work of
--   src/adapters/outbound/persistence, and src/adapters/outbound/locking/in_memory_lock_manager.py.
--   Its children instantiate the service: Locks, Success, Completion, Transfers, Replays,
--   Failures, Errors, Balance, Accounts.
-- - Adapters/Sql: src/adapters/outbound/persistence/sqlalchemy_unit_of_work.py and
--   repositories/postgres_*.py there. Session is the interface of the database session with its laws,
--   Repositories and UnitOfWork are the code; Views, Loading, Saving, Persisting and Outcomes follow
--   the single operations, Outbox the messages of a commit, Atomicity the transaction of a request
--   (Commit, Statements, Block, Request), Transfers and Phantom the block of a transfer, Requests the
--   whole request, Accounts the account service.
-- - Adapters/Redis: src/adapters/outbound/locking/redis_lock_manager.py; Waiting is about the loop that
--   waits for one key, Locking has the laws of the server and the effect on one key, Blocks and Failures
--   are about the keys of a request.
-- - Adapters/Mappers: the rows and mappers of src/adapters/outbound/persistence; RoundTrip takes what a
--   numeric column gives back as a parameter, and that it keeps a value of up to 17 digits as the
--   hypothesis. Columns is about the length of the failure code.
-- - Adapters/Http/Status: src/adapters/inbound/http/exception_handlers.py. Adapters/Http/Auth:
--   src/adapters/inbound/http/middleware/auth.py; `parse_uuid` stands for `UUID(text)`.
--   Adapters/Http/Accounts: routers/accounts.py and schemas/account.py there; Ownership is who sees what.
--   Adapters/Http/Transactions: routers/transactions.py and schemas/transaction.py there, with Answers.
--   Adapters/Http/DevToken: routers/auth.py there.
-- - Infrastructure/Settings: src/infrastructure/config/settings.py.
-- - Migrations: alembic/versions. Schema has the tables and the operations of Alembic as a parameter,
--   Initial the migration, Models the tables that src/adapters/outbound/persistence/models declare,
--   Runs and Undo what the migration does.
-- - Tests: concrete processes, and each theorem applied to one.
--
-- Conventions. An amount of `Money` is an integer number of hundredths; a `Decimal` is an integer
-- of units and a number of places, a NaN or an infinity, and a result of more than 28 digits
-- raises, as in the default decimal context; the sign of a zero is not kept. A UUID is a number;
-- its text is a parameter, `uuid_text`, and two texts are ordered as the numbers are. Times, UUIDs
-- and random digits come from the supply of draws `Env.supply`, of which nothing is assumed.
-- Exceptions are values of `Exn`. One request runs at a time, so the held keys are those of
-- requests that are under way elsewhere.
--
-- Fuel. The loop that waits for a Redis key is the only one that is not over a list. It has
-- `wait_timeout / retry_interval + 2` rounds of fuel: a round that goes on sleeps for the retry
-- interval or up to the deadline, so the fuel is not used up while the clock moves as a sleep
-- says.
--
-- The environment of the adapters. The SQL session, the Redis client with the clock of the event
-- loop, the numeric column, UUID parsing and the payload of a token are parameters; the interfaces
-- `Views`, `Answers`, `Fresh`, `Clock`, `Keys`, `Answered`, `Deaf` and `Promises` state what is
-- relied on, and the tests instantiate them with concrete functions. A session keeps a view that
-- its own statements change; the row locks of `SELECT ... FOR UPDATE` and other connections are
-- left out. A key of Redis that expires is a change of the server's state, which the interface of
-- the client allows.
--
-- Not modelled: the request id, logging and the health route; the wiring of main and of the
-- container, the engine and the cache client, which call libraries only; the environment of the
-- migrations (alembic/env.py). Of the modelled classes, `__repr__`, `to_json` and the helpers that
-- only tests call are left out.
pub mod Prelude
pub mod Domain
pub mod Application
pub mod Adapters
pub mod Infrastructure
pub mod Migrations
pub mod Tests
