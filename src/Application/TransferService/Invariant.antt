-- ===== src/Application/TransferService/Invariant.antt =====
-- A property of the process that every step of the transfer keeps, whatever is raised on the way:
-- what it has to stand, and that the whole of `initiate` then keeps it.
use banking_transaction_syst.Prelude.{
  ℕ, String, ◌≡◌, Option, none, some, inl, inr, Bool, List, [], ◌∷◌,
}
use banking_transaction_syst.Prelude.Dict.{update}
use banking_transaction_syst.Domain.Amount.{Money}
use banking_transaction_syst.Domain.Money.{decimal, money}
use banking_transaction_syst.Domain.Money.Rounding.{IsMoney, money-IsMoney}
use banking_transaction_syst.Domain.Exceptions.{Exn, Result, ok, Result-cases}
use banking_transaction_syst.Domain.Base.{Draw}
use banking_transaction_syst.Domain.Account.{Account, debit, credit}
use banking_transaction_syst.Domain.Transaction.{Transaction, complete}
use banking_transaction_syst.Domain.Events.{DomainEvent}
use banking_transaction_syst.Application.Runtime.{
  World, Env, gets, on_account, on_transaction, make_transaction,
}
use banking_transaction_syst.Application.Runtime.Keeps.{
  Preserves, bind-Preserves, attempt-Preserves, still,
}
use banking_transaction_syst.Application.Runtime.Steps.{
  on_account_ok, on_account_err, on_transaction_ok, on_transaction_err, make_transaction_ok,
  make_transaction_err,
}
use banking_transaction_syst.Application.Ports.{UnitOfWork, LockManager, with_uow, with_lock}
use banking_transaction_syst.Application.Dtos.{TransferCommand}
use banking_transaction_syst.Application.TransferService.{
  Parties, found, load, move_money, record_failure, persist, execute, parse_currency, lock_keys,
  perform, answer, initiate, publish_any, publish_many, publish_events, collect_account,
  collect_transaction,
}
use banking_transaction_syst.Application.TransferService.Publication.{cleared}
use banking_transaction_syst.Application.TransferService.Requests

-- What `I` stands: changes of the transactions, of the draws and of the bus, a debit or a credit of
-- a valid amount, and an account whose events are taken.
pub record Stable {S L : Type 0} (I : World S L → Type 0) : Type 0 where
  pub bookkeeping :
      (w : World S L) (f : ℕ → Transaction) (k n : ℕ)
      → I w
      → I (record w { transactions = f; next = k; draws = n })
  pub debited :
      (w : World S L) (d : Draw) (m : Money) (tx ref n : ℕ) (b : Account)
      → IsMoney m
      → debit d m tx (w.accounts ref) ≡ ok b
      → I w
      → I (record w { accounts = update w.accounts ref b; draws = n })
  pub credited :
      (w : World S L) (d : Draw) (m : Money) (tx ref n : ℕ) (b : Account)
      → IsMoney m
      → credit d m tx (w.accounts ref) ≡ ok b
      → I w
      → I (record w { accounts = update w.accounts ref b; draws = n })
  pub collected :
      (w : World S L) (ref : ℕ)
      → I w
      → I (record w { accounts = update w.accounts ref (cleared (w.accounts ref)) })
  pub announced : (w : World S L) (es : List DomainEvent) → I w → I (record w { published = es })

-- Every call of the storage keeps `I`.
pub record Storage {S L : Type 0} (I : World S L → Type 0) (uow : UnitOfWork S L) : Type 0 where
  pub get : (id : ℕ) → Preserves I (uow.accounts.get_with_lock id)
  pub update : (ref : ℕ) → Preserves I (uow.accounts.update ref)
  pub by_key : (key : String) → Preserves I (uow.transactions.get_by_idempotency_key key)
  pub save : (ref : ℕ) → Preserves I (uow.transactions.save ref)
  pub commit : Preserves I uow.commit
  pub enter : (w : World S L) → I w → I (uow.enter w)
  pub exit : (b : Bool) (w : World S L) → I w → I (uow.exit b w)

module _ {S L : Type 0} (env : Env) (I : World S L → Type 0) (stable : Stable I) where
  on_transaction-Preserves :
      (method : Draw → Transaction → Result Transaction) (ref : ℕ)
      → Preserves I (on_transaction env method ref)
  on_transaction-Preserves method ref = record {
    keeps = λ w i. elim (Result-cases (method (env.supply w.draws) (w.transactions ref))) [
      | inl (t, h) ↦ rw (on_transaction_ok env ref w method t h) (stable.bookkeeping w _ _ _ i)
      | inr (e, h) ↦ rw (on_transaction_err env ref w method e h) (stable.bookkeeping w _ _ _ i)
    ];
  }

  make_transaction-Preserves :
      (method : Draw → Result Transaction) → Preserves I (make_transaction env method)
  make_transaction-Preserves method = record {
    keeps = λ w i. elim (Result-cases (method (env.supply w.draws))) [
      | inl (t, h) ↦ rw (make_transaction_ok env w method t h) (stable.bookkeeping w _ _ _ i)
      | inr (e, h) ↦ rw (make_transaction_err env w method e h) (stable.bookkeeping w _ _ _ i)
    ];
  }

  debit-Preserves :
      (m : Money) (tx ref : ℕ) → IsMoney m → Preserves I (on_account env (λ d. debit d m tx) ref)
  debit-Preserves m tx ref hm = record {
    keeps = λ w i. elim (Result-cases (debit (env.supply w.draws) m tx (w.accounts ref))) [
      | inl (a, h) ↦
          rw (on_account_ok env ref w (λ d. debit d m tx) a h)
            (stable.debited w (env.supply w.draws) m tx ref _ a hm h i)
      | inr (e, h) ↦
          rw (on_account_err env ref w (λ d. debit d m tx) e h) (stable.bookkeeping w _ _ _ i)
    ];
  }

  credit-Preserves :
      (m : Money) (tx ref : ℕ) → IsMoney m → Preserves I (on_account env (λ d. credit d m tx) ref)
  credit-Preserves m tx ref hm = record {
    keeps = λ w i. elim (Result-cases (credit (env.supply w.draws) m tx (w.accounts ref))) [
      | inl (a, h) ↦
          rw (on_account_ok env ref w (λ d. credit d m tx) a h)
            (stable.credited w (env.supply w.draws) m tx ref _ a hm h i)
      | inr (e, h) ↦
          rw (on_account_err env ref w (λ d. credit d m tx) e h) (stable.bookkeeping w _ _ _ i)
    ];
  }

  move_money-Preserves : (p : Parties) (m : Money) → IsMoney m → Preserves I (move_money env p m)
  unfolding move_money
  move_money-Preserves p m hm = bind-Preserves I _ _ (on_transaction-Preserves _ p.tx) (λ _.
      bind-Preserves I (gets (λ (w : World S L). (w.transactions p.tx).id)) _ (still I _) (λ tx.
        bind-Preserves I _ _ (debit-Preserves m tx p.sender hm) (λ _.
          bind-Preserves I _ _ (credit-Preserves m tx p.receiver hm)
            (λ _. on_transaction-Preserves complete p.tx))))

  publish_any-Preserves : (es : List DomainEvent) → Preserves I (publish_any es)
  unfolding publish_any publish_many
  publish_any-Preserves [] = record { keeps = λ w i. i }
  publish_any-Preserves (e ∷ es) = record { keeps = λ w i. stable.announced w _ i }

  publish_events-Preserves : (p : Parties) → Preserves I (publish_events p)
  unfolding publish_events collect_account collect_transaction
  publish_events-Preserves p = record {
    keeps = λ w i. (publish_any-Preserves _).keeps _ (
        stable.bookkeeping _ _ _ _ (stable.collected _ p.receiver (stable.collected w p.sender i)));
  }

  module _ (uow : UnitOfWork S L) (h : Storage I uow) where
    found-Preserves : (id : ℕ) (o : Option ℕ) → Preserves I (found id o)
    unfolding found
    found-Preserves id none = record { keeps = λ w i. i }
    found-Preserves id (some ref) = record { keeps = λ w i. i }

    load-Preserves : (id : ℕ) → Preserves I (load uow id)
    load-Preserves id =
        bind-Preserves I (uow.accounts.get_with_lock id) (found id) (h.get id) (found-Preserves id)

    record_failure-Preserves : (p : Parties) (e : Exn) → Preserves I (record_failure env uow p e)
    unfolding record_failure
    record_failure-Preserves p e = bind-Preserves I _ _ (on_transaction-Preserves _ p.tx) (λ _.
        bind-Preserves I _ _ (h.save p.tx)
          (λ _. bind-Preserves I _ _ h.commit (λ _. record { keeps = λ w i. i })))

    persist-Preserves : (p : Parties) → Preserves I (persist env uow p)
    unfolding persist
    persist-Preserves p = bind-Preserves I _ _ (h.update p.sender) (λ _.
        bind-Preserves I _ _ (h.update p.receiver) (λ _.
          bind-Preserves I _ _ (h.save p.tx)
            (λ _. bind-Preserves I _ _ h.commit (λ _. record { keeps = λ w i. i }))))

    pub execute-Preserves :
        (cmd : TransferCommand) (m : Money) → IsMoney m → Preserves I (execute env uow cmd m)
    unfolding execute
    execute-Preserves cmd m hm = bind-Preserves I _ _ (load-Preserves cmd.from_account_id) (λ s.
        bind-Preserves I _ _ (load-Preserves cmd.to_account_id) (λ r.
          bind-Preserves I _ _ (make_transaction-Preserves _) (λ tx.
            bind-Preserves I _ _
              (attempt-Preserves I _ _ (move_money-Preserves _ m hm) (record_failure-Preserves _))
              (λ _. persist-Preserves _))))

    -- The rest of the request, once the block inside the lock is known to keep `I`.
    module _ (lock : LockManager S L) (cmd : TransferCommand)
        (guarded : (m : Money)
          → IsMoney m
          → Preserves I (
              with_lock lock
                (lock_keys cmd.from_account_id cmd.to_account_id)
                (with_uow uow (execute env uow cmd m)))) where
      perform-Preserves : Preserves I (perform env uow lock cmd)
      perform-Preserves = record {
        keeps = λ w i. elim (Result-cases (parse_currency cmd.currency)) [
          | inr (e, h) ↦ rw (Requests.perform_bad_currency env uow lock cmd w e h) i
          | inl (c, known) ↦ elim (Result-cases (money (decimal cmd.amount) c)) [
            | inr (e, h) ↦ rw (Requests.perform_bad_amount env uow lock cmd w c known e h) i
            | inl (m, rounded) ↦ rw (Requests.reached env uow lock cmd w c known m rounded) (
                (bind-Preserves I _ _ (guarded m (money-IsMoney (decimal cmd.amount) c m rounded).0)
                    (λ p.
                      bind-Preserves I (publish_events p) _ (publish_events-Preserves p)
                        (λ _. still I _))).keeps
                  w i)
          ]
        ];
      }

      answer-Preserves : (o : Option ℕ) → Preserves I (answer env uow lock cmd o)
      unfolding answer
      answer-Preserves none = perform-Preserves
      answer-Preserves (some ref) = record { keeps = λ w i. i }

      pub initiate-Preserves : Preserves I (initiate env uow lock cmd)
      unfolding initiate
      initiate-Preserves =
          bind-Preserves I
            (with_uow uow (uow.transactions.get_by_idempotency_key cmd.idempotency_key))
            (answer env uow lock cmd) looked_up answer-Preserves
        where
          looked_up :
              Preserves I
                (with_uow uow (uow.transactions.get_by_idempotency_key cmd.idempotency_key))
          looked_up = record {
            keeps = λ w i.
                h.exit _ _ ((h.by_key cmd.idempotency_key).keeps (uow.enter w) (h.enter w i));
          }
