-- ===== src/Application/TransferService/Requests.antt =====
-- The whole request, whatever the storage and the locks: the idempotency check, the lock around
-- the unit of work, and the events that follow it.
use banking_transaction_syst.Prelude.{ℕ, List, ◌≡◌, ap, ◌∙◌, true, false, Option, none, some}
use banking_transaction_syst.Domain.Enums.CurrencyEnum.{Currency}
use banking_transaction_syst.Domain.Amount.{Money}
use banking_transaction_syst.Domain.Money.{decimal, money}
use banking_transaction_syst.Domain.Exceptions.{Exn, Result, ok, err}
use banking_transaction_syst.Application.Runtime.{
  World, Env, Proc, ◌>>=◌, ◌>>◌, gets, lift, continue,
}
use banking_transaction_syst.Application.Runtime.Steps.{bind_ok, bind_err}
use banking_transaction_syst.Application.Ports.{
  UnitOfWork, LockManager, with_uow, with_lock, failed,
}
use banking_transaction_syst.Application.Dtos.{TransferCommand, transaction_dto}
use banking_transaction_syst.Application.TransferService.{
  Parties, parse_currency, lock_keys, publish_events, execute, perform, answer, initiate,
}

module _ {S L : Type 0} (env : Env) (uow : UnitOfWork S L) (lock : LockManager S L)
    (cmd : TransferCommand) (w : World S L) where
  -- A key that is known: the stored transaction is the answer.
  pub initiate_known :
      (ref : ℕ) (w1 : World S L)
      → uow.transactions.get_by_idempotency_key cmd.idempotency_key (uow.enter w)
        ≡ (ok (some ref), w1)
      → initiate env uow lock cmd w
        ≡ (ok (transaction_dto ((uow.exit false w1).transactions ref)), uow.exit false w1)
  unfolding initiate answer
  initiate_known ref w1 h =
      bind_ok (with_uow uow (uow.transactions.get_by_idempotency_key cmd.idempotency_key)) _
        (ap (λ (q : Result (Option ℕ) × World S L). (q.0, uow.exit (failed q.0) q.1)) h)

  pub initiate_new :
      (w1 : World S L)
      → uow.transactions.get_by_idempotency_key cmd.idempotency_key (uow.enter w) ≡ (ok none, w1)
      → initiate env uow lock cmd w ≡ perform env uow lock cmd (uow.exit false w1)
  unfolding initiate answer
  initiate_new w1 h =
      bind_ok (with_uow uow (uow.transactions.get_by_idempotency_key cmd.idempotency_key)) _
        (ap (λ (q : Result (Option ℕ) × World S L). (q.0, uow.exit (failed q.0) q.1)) h)

  pub perform_bad_currency :
      (e : Exn) → parse_currency cmd.currency ≡ err e → perform env uow lock cmd w ≡ (err e, w)
  unfolding perform
  perform_bad_currency e h = bind_err (lift (parse_currency cmd.currency)) _ (ap (λ r. (r, w)) h)

  module _ (c : Currency) (known : parse_currency cmd.currency ≡ ok c) where
    pub perform_bad_amount :
        (e : Exn) → money (decimal cmd.amount) c ≡ err e → perform env uow lock cmd w ≡ (err e, w)
    unfolding perform
    perform_bad_amount e h =
        bind_ok (lift (parse_currency cmd.currency)) _ (ap (λ r. (r, w)) known)
        ∙ bind_err (lift (money (decimal cmd.amount) c)) _ (ap (λ r. (r, w)) h)

    module _ (m : Money) (rounded : money (decimal cmd.amount) c ≡ ok m) where
      abbrev pub keys : List ℕ
      keys = lock_keys cmd.from_account_id cmd.to_account_id

      abbrev pub guarded : Proc S L Parties
      guarded = with_lock lock keys (with_uow uow (execute env uow cmd m))

      pub reached :
          perform env uow lock cmd w
          ≡ (guarded >>= λ p. publish_events p >> gets (λ v. transaction_dto (v.transactions p.tx)))
              w
      unfolding perform
      reached =
          bind_ok (lift (parse_currency cmd.currency)) _ (ap (λ r. (r, w)) known)
          ∙ bind_ok (lift (money (decimal cmd.amount) c)) _ (ap (λ r. (r, w)) rounded)

      abbrev Answer : Type 0
      Answer = Result (Unit {0}) × List ℕ × World S L

      abbrev rest : Answer → Result Parties × World S L
      rest q =
          let (r2, w2) = continue q.0 (λ _. with_uow uow (execute env uow cmd m)) q.2 in
          (r2, lock.release q.1 w2)

      -- The locks are not free.
      pub perform_locked :
          (e : Exn) (got : List ℕ) (w1 : World S L)
          → lock.acquire keys w ≡ (err e, got, w1)
          → perform env uow lock cmd w ≡ (err e, lock.release got w1)
      perform_locked e got w1 h = reached ∙ bind_err guarded _ (ap rest h)

      module _ (got : List ℕ) (w1 w2 : World S L)
          (free : lock.acquire keys w ≡ (ok tt, got, w1)) where
        abbrev close : Result Parties × World S L → Result Parties × World S L
        close q = (q.0, lock.release got (uow.exit (failed q.0) q.1))

        -- An exception passes through the unit of work and the lock, which are left behind it.
        pub perform_err :
            (e : Exn)
            → execute env uow cmd m (uow.enter w1) ≡ (err e, w2)
            → perform env uow lock cmd w ≡ (err e, lock.release got (uow.exit true w2))
        perform_err e h = reached ∙ bind_err guarded _ (ap rest free ∙ ap close h)

        pub perform_ok :
            (p : Parties)
            → execute env uow cmd m (uow.enter w1) ≡ (ok p, w2)
            → perform env uow lock cmd w
              ≡ (publish_events p >> gets (λ v. transaction_dto (v.transactions p.tx)))
                  (lock.release got (uow.exit false w2))
        perform_ok p h = reached ∙ bind_ok guarded _ (ap rest free ∙ ap close h)
