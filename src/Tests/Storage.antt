-- ===== src/Tests/Storage.antt =====
-- The theorems about the database and the lock server, applied to small inputs.
use banking_transaction_syst.Prelude.{
  ℕ, ◌+◌, ◌/◌, ◌≤◌, ◌≡◌, ◌≢◌, refl, true, false, some, [], ◌∷◌, arith,
}
use banking_transaction_syst.Prelude.Tests.{◌==◌, nat_eq, string_eq}
use banking_transaction_syst.Domain.Enums.CurrencyEnum
use banking_transaction_syst.Domain.Enums.CurrencyEnum.{eur}
use banking_transaction_syst.Domain.Enums.AccountStatusEnum
use banking_transaction_syst.Domain.Money.{money, add, sub, is_zero}
use banking_transaction_syst.Domain.Amount.{quantize}
use banking_transaction_syst.Prelude.Int.{◌-ℤ◌, ◌+ℤ◌}
use banking_transaction_syst.Domain.Exceptions.{Result, ok, err, account}
use banking_transaction_syst.Domain.Exceptions.Classes
use banking_transaction_syst.Domain.Account.{
  credit, reconstitute, assert_not_closed, assert_not_frozen,
}
use banking_transaction_syst.Application.Runtime.{World}
use banking_transaction_syst.Application.Ports.{with_uow, with_lock}
use banking_transaction_syst.Application.TransferService.{parse_currency, execute, initiate}
use banking_transaction_syst.Application.AccountService.{create_account}
use banking_transaction_syst.Adapters.Mappers.AccountMapper
use banking_transaction_syst.Adapters.Sql.Session.{SqlWorld}
use banking_transaction_syst.Adapters.Sql.UnitOfWork.{unit_of_work}
use banking_transaction_syst.Adapters.Sql.Outcomes.{PhantomDebit, SqlAnswered}
use banking_transaction_syst.Adapters.Sql.Phantom.{credit-PhantomDebit}
use banking_transaction_syst.Adapters.Sql.Requests.{initiate-SqlAnswered}
use banking_transaction_syst.Adapters.Sql.Accounts.{SqlCreated, create_account-SqlCreated}
use banking_transaction_syst.Adapters.Sql.Atomicity.Request.{failed_transfer_writes_no_account}
use banking_transaction_syst.Adapters.Redis.{
  retry_interval, conflict, lock_manager, acquire_single, attempts, fuel,
}
use banking_transaction_syst.Adapters.Redis.Waiting.{Run, acquire_single-Run, busy_key_conflicts}
use banking_transaction_syst.Adapters.Redis.Blocks.{with_lock_restores, with_lock_keeps_others}
use banking_transaction_syst.Adapters.Redis.Failures.{AllHeld, failed_release_keeps_keys}
use banking_transaction_syst.Adapters.Redis.Locking.{lock_manager-Separate, lock_manager-Isolated}
use banking_transaction_syst.Tests.Data.{
  env, euros, alice, bob, frozen_bob, command, price, opening, pending_tx,
}
use banking_transaction_syst.Tests.Database.{
  Db, session, views, answers, fresh, tables_of, sql_world,
}
use banking_transaction_syst.Tests.Server.{
  Server, server, config, clock, answered, deaf_server, deaf_keys, deaf, deaf_clock, keys,
  nothing_held, busy, busy_clock,
}
use banking_transaction_syst.Domain.Transaction
use banking_transaction_syst.Application.TransferService.{
  answer, perform, lock_keys, found, move_money, record_failure, collect_account,
}
use banking_transaction_syst.Adapters.Sql.Repositories.{
  transaction_get_by_idempotency_key, loaded_transaction, account_get, loaded_account,
  transaction_save, put_transaction_row,
}
use banking_transaction_syst.Adapters.Redis.{acquire_keys, after_set, lock_key}
use banking_transaction_syst.Prelude.Text.{show}
use banking_transaction_syst.Application.Runtime.{
  new_account, make_transaction, new_transaction, on_transaction, on_account,
}
use banking_transaction_syst.Domain.Transaction.{mark_processing, fail}
use banking_transaction_syst.Domain.Enums.TransactionStatusEnum.{can_process, can_fail}
use banking_transaction_syst.Domain.Account.{debit}
use banking_transaction_syst.Adapters.Sql.UnitOfWork.{commit, settle, collect_and_store_events}
use banking_transaction_syst.Domain.Base.{collect_events}

abbrev world : SqlWorld Db Server
world = sql_world nothing_held bob

abbrev frozen_world : SqlWorld Db Server
frozen_world = sql_world nothing_held frozen_bob

reads :
    (AccountMapper.to_domain (AccountMapper.to_new_orm alice) ≡ ok alice)
    × (AccountMapper.to_domain (AccountMapper.to_new_orm bob) ≡ ok bob)
    × (AccountMapper.to_domain (AccountMapper.to_new_orm frozen_bob) ≡ ok frozen_bob)
unfolding AccountMapper.to_domain AccountMapper.to_new_orm parse_currency CurrencyEnum.of_value
    CurrencyEnum.value money quantize AccountStatusEnum.of_value AccountStatusEnum.value
    reconstitute
reads = (refl, refl, refl)

apart : ◌≢◌ {A = ℕ} 1 2
apart = λ h. absurd (omega arith)

failed_transfer_writes_no_account_example :
    let (answer, w') =
      initiate env
        (unit_of_work session)
        (lock_manager server config env.uuid_text)
        (command 1 2 price)
        frozen_world in
    w'.store.db.durable.accounts ≡ (tables_of frozen_bob).accounts
unfolding AccountMapper.to_domain AccountMapper.to_new_orm parse_currency CurrencyEnum.of_value
    CurrencyEnum.value money quantize AccountStatusEnum.of_value AccountStatusEnum.value
    reconstitute credit assert_not_closed assert_not_frozen initiate answer perform
    transaction_get_by_idempotency_key loaded_transaction acquire_keys lock_keys acquire_single
    attempts after_set lock_key show execute found account_get loaded_account new_account
    make_transaction new_transaction Transaction.initiate is_zero move_money on_transaction
    mark_processing can_process on_account debit sub ◌-ℤ◌ record_failure fail can_fail
    transaction_save put_transaction_row commit settle collect_and_store_events collect_account
    collect_events
failed_transfer_writes_no_account_example =
    failed_transfer_writes_no_account session views (lock_manager server config env.uuid_text) env
      (command 1 2 price) frozen_world _ (account (Classes.AccountError.account_frozen 2))
      (lock_manager-Separate server config env.uuid_text) refl

initiate-SqlAnswered_example :
    let (answer, w') =
      initiate env
        (unit_of_work session)
        (lock_manager server config env.uuid_text)
        (command 1 2 price)
        world in
    SqlAnswered views
      (command 1 2 price)
      (AccountMapper.to_new_orm alice)
      (AccountMapper.to_new_orm bob)
      (euros 7450)
      (euros 3050)
      100
      (tables_of bob)
      []
      w'
      answer
unfolding is_zero sub add ◌-ℤ◌ ◌+ℤ◌ money quantize AccountMapper.to_new_orm parse_currency
    CurrencyEnum.of_value acquire_keys lock_keys acquire_single attempts after_set lock_key show
initiate-SqlAnswered_example =
    initiate-SqlAnswered session views answers fresh (lock_manager server config env.uuid_text)
      (lock_manager-Isolated server config env.uuid_text) env (command 1 2 price) eur (euros 2550)
      world refl refl refl refl refl refl reads.0 reads.1 refl apart refl refl refl (euros 7450)
      (euros 3050) refl refl refl refl

credit-PhantomDebit_example :
    let (answer, w') =
      with_uow
        (unit_of_work session)
        (execute env (unit_of_work session) (command 1 2 price) (euros 2550))
        frozen_world in
    PhantomDebit views
      (account (Classes.AccountError.account_frozen 2))
      alice
      (euros 2550)
      (euros 7450)
      100
      frozen_world
      w'
      answer
unfolding is_zero sub ◌-ℤ◌ money quantize credit assert_not_closed assert_not_frozen
credit-PhantomDebit_example =
    credit-PhantomDebit session views answers env (command 1 2 price) (euros 2550) frozen_world refl
      refl reads.0 reads.2 refl apart refl (euros 7450) refl refl
      (account (Classes.AccountError.account_frozen 2)) (λ d tx. refl)

create_account-SqlCreated_example :
    let (answer, w') = create_account env (unit_of_work session) opening world in
    SqlCreated views opening (euros 2550) 100 world w' answer
unfolding parse_currency CurrencyEnum.of_value money quantize
create_account-SqlCreated_example =
    create_account-SqlCreated session views answers env opening eur (euros 2550) world refl refl
      refl

acquire_single-Run_example :
    (n : ℕ) × (n ≤ 5000000 / retry_interval + 2)
    × Run server config "k" 30 5000007 nothing_held n
        (acquire_single server config "k" 30 nothing_held)
    × (attempts server config (fuel server config) "k" 30 5000007 nothing_held
        ≡ some (acquire_single server config "k" 30 nothing_held))
acquire_single-Run_example = acquire_single-Run server config "k" 30 nothing_held clock

busy_key_conflicts_example :
    let (answer, r') = acquire_single busy config "k" 30 nothing_held in
    (answer ≡ err (conflict config "k")) × (7 + 5000000 ≤ r'.time)
busy_key_conflicts_example =
    busy_key_conflicts busy config "k" 30 nothing_held busy_clock (λ s. refl)

abbrev look : World ℕ Server → Result ℕ × World ℕ Server
look w = (ok w.next, w)

abbrev small : World ℕ Server
small = record {
  accounts = λ _. alice;
  transactions = λ _. pending_tx;
  next = 0;
  store = 0;
  locks = nothing_held;
  published = [];
  draws = 0;
}

with_lock_restores_example :
    (with_lock (lock_manager server config env.uuid_text) (1 ∷ 2 ∷ []) look small).1.locks.held "k"
    ≡ false
with_lock_restores_example =
    with_lock_restores server keys config clock env.uuid_text look (λ v. refl) answered (1 ∷ 2 ∷ [])
      small "k"

-- Somebody else holds the first key.
abbrev taken : World ℕ Server
taken = record small { locks = record nothing_held { held = λ k. k == lock_key env.uuid_text 1 } }

with_lock_keeps_others_example :
    (with_lock (lock_manager deaf_server config env.uuid_text) (2 ∷ 1 ∷ []) look taken).1.locks.held
      (lock_key env.uuid_text 1)
    ≡ true
unfolding lock_key show
with_lock_keeps_others_example =
    with_lock_keeps_others deaf_server deaf_keys config deaf_clock env.uuid_text look (λ v. refl)
      (2 ∷ 1 ∷ []) taken (lock_key env.uuid_text 1) refl

failed_release_keeps_keys_example :
    let (answer, w') =
      with_lock (lock_manager deaf_server config env.uuid_text) (1 ∷ 2 ∷ []) look small in
    (answer
      ≡ (look (record small {
        locks = (acquire_keys deaf_server config env.uuid_text (1 ∷ 2 ∷ []) nothing_held).2;
      })).0)
    × AllHeld deaf_server deaf_keys config deaf_clock env.uuid_text (1 ∷ 2 ∷ []) w'.locks
unfolding acquire_keys acquire_single attempts after_set lock_key show
failed_release_keeps_keys_example =
    failed_release_keeps_keys deaf_server deaf_keys config deaf_clock env.uuid_text deaf look
      (λ v. refl) (1 ∷ 2 ∷ []) small refl
