-- ===== src/Adapters/Sql/Atomicity/Request.antt =====
-- A request that raises leaves the table of accounts as it was, whatever statement failed.
use banking_transaction_syst.Prelude.{ℕ, List, ◌≡◌, refl, ap, sym, Option, none, some}
use banking_transaction_syst.Domain.Money.{decimal, money}
use banking_transaction_syst.Domain.Exceptions.{Exn, Result, ok, err}
use banking_transaction_syst.Application.Runtime.{Env, lift, gets, continue}
use banking_transaction_syst.Application.Runtime.Triples.{
  Triple, Outcome, bind-Triple, still-Triple,
}
use banking_transaction_syst.Application.Ports.{Separate, LockManager, with_uow, with_lock}
use banking_transaction_syst.Application.Dtos.{TransferCommand}
use banking_transaction_syst.Application.TransferService.{
  parse_currency, lock_keys, execute, perform, answer, initiate, publish_events,
}
use banking_transaction_syst.Application.TransferService.Publication.{publish_events-ok}
use banking_transaction_syst.Adapters.Mappers.AccountMapper.{AccountRow}
use banking_transaction_syst.Adapters.Sql.Session.{Session, SqlStore, SqlWorld, SqlProc}
use banking_transaction_syst.Adapters.Sql.Repositories.{transaction_get_by_idempotency_key}
use banking_transaction_syst.Adapters.Sql.UnitOfWork.{unit_of_work}
use banking_transaction_syst.Adapters.Sql.Views.{Views}
use banking_transaction_syst.Adapters.Sql.Atomicity.Commit.{same_store}
use banking_transaction_syst.Adapters.Sql.Atomicity.Statements.{Old}
use banking_transaction_syst.Adapters.Sql.Atomicity.Block.{execute_safe, block_safe, lookup_safe}

module _ {D L : Type 0} (session : Session D) (views : Views session)
    (rows : ℕ → Option AccountRow) where
  abbrev Safe : SqlWorld D L → Type 0
  Safe = Old session views rows

  abbrev Any : {A : Type 0} → A → SqlWorld D L → Type 0
  Any _ _ = Unit {0}

  module _ (lock : LockManager (SqlStore D) L) (separate : Separate lock) where
    released :
        {A : Type 0} (held : List ℕ) (q : Result A × SqlWorld D L)
        → Outcome Any Safe q
        → Outcome Any Safe (q.0, lock.release held q.1)
    released held (ok a, w) h = tt
    released held (err e, w) h =
        same_store session views rows (lock.release held w) w
          (ap (λ (s : SqlStore D). s.db) (separate.release_store held w)) h

    entered :
        {A : Type 0} (body : SqlProc D L A) (r : Result (Unit {0})) (w : SqlWorld D L)
        → Triple Safe body Any Safe
        → Safe w
        → Outcome Any Safe (continue r (λ _. body) w)
    entered body (ok _) w t i = t.holds w i
    entered body (err e) w t i = i

    guarded_safe :
        {A : Type 0} (keys : List ℕ) (body : SqlProc D L A)
        → Triple Safe body Any Safe
        → Triple Safe (with_lock lock keys body) Any Safe
    guarded_safe keys body t = record {
      holds = λ w i.
          let q = lock.acquire keys w in
          released q.1 _ (
            entered body q.0 q.2 t (
              same_store session views rows q.2 w
                (ap (λ (s : SqlStore D). s.db) (separate.acquire_store keys w)) i));
    }

    sure :
        {A : Type 0} (f : SqlWorld D L → A) (q : Result (Unit {0}) × SqlWorld D L)
        → q.0 ≡ ok tt
        → Outcome Any Safe (continue q.0 (λ _. gets f) q.1)
    sure f (ok _, w) h = tt
    sure f (err e, w) h = absurd (cc h)

    perform_safe :
        (env : Env) (cmd : TransferCommand)
        → Triple Safe (perform env (unit_of_work session) lock cmd) Any Safe
    unfolding perform
    perform_safe env cmd = bind-Triple (lift (parse_currency cmd.currency)) _ (still-Triple _) (λ c.
        bind-Triple (lift (money (decimal cmd.amount) c)) _ (still-Triple _) (λ m.
          bind-Triple
            (with_lock lock (lock_keys cmd.from_account_id cmd.to_account_id)
              (with_uow (unit_of_work session) (execute env (unit_of_work session) cmd m)))
            _
            (guarded_safe _ _
              (block_safe session views rows _ (execute_safe session views rows env cmd m)))
            (λ p. record { holds = λ w i. sure _ (publish_events p w) (publish_events-ok p w) })))

    answer_safe :
        (env : Env) (cmd : TransferCommand) (known : Option ℕ)
        → Triple Safe (answer env (unit_of_work session) lock cmd known) Any Safe
    unfolding answer
    answer_safe env cmd none = perform_safe env cmd
    answer_safe env cmd (some ref) = record { holds = λ w i. tt }

    pub initiate_safe :
        (env : Env) (cmd : TransferCommand)
        → Triple Safe (initiate env (unit_of_work session) lock cmd) Any Safe
    unfolding initiate
    initiate_safe env cmd =
        bind-Triple
          (with_uow (unit_of_work session)
            (transaction_get_by_idempotency_key session cmd.idempotency_key))
          _ (lookup_safe session views rows cmd.idempotency_key) (answer_safe env cmd)

    pub raised_safe :
        {A : Type 0} (q : Result A × SqlWorld D L) (e : Exn) (w : SqlWorld D L)
        → q ≡ (err e, w)
        → Outcome Any Safe q
        → Safe w
    raised_safe (ok a, v) e w h i = absurd (cc h)
    raised_safe (err x, v) e w h i =
        same_store session views rows w v
          (ap (λ (q : Result _ × SqlWorld D L). q.1.store.db) (sym h)) i

-- A session of which the views hold, and a lock manager that leaves the storage alone: if a request
-- for a transfer raises, wherever it fails and whatever was written in the session, every row of
-- the table of accounts is the one before the request.
pub failed_transfer_writes_no_account :
    {D L : Type 0} (session : Session D) (views : Views session) (lock : LockManager (SqlStore D) L)
    (env : Env) (cmd : TransferCommand) (w w' : SqlWorld D L) (e : Exn)
    → Separate lock
    → initiate env (unit_of_work session) lock cmd w ≡ (err e, w')
    → (views.durable w'.store.db).accounts ≡ (views.durable w.store.db).accounts
failed_transfer_writes_no_account session views lock env cmd w w' e separate h =
    let rows = (views.durable w.store.db).accounts in
    (raised_safe session views rows lock separate _ e w' h (
      (initiate_safe session views rows lock separate env cmd).holds w
        (record { durable = refl }))).durable
