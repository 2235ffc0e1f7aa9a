-- ===== src/Application/Ports.antt =====
-- The outbound ports (src/application/ports/outbound): what a service calls. A repository hands out
-- references to aggregates.
use banking_transaction_syst.Prelude.{ℕ, String, Bool, true, false, Option, List, ◌≡◌}
use banking_transaction_syst.Domain.Exceptions.{Result, ok, err}
use banking_transaction_syst.Application.Runtime.{World, Proc, continue}

-- `IAccountRepository`
pub record AccountRepository (S L : Type 0) : Type 0 where
  pub get : ℕ → Proc S L (Option ℕ)
  pub get_with_lock : ℕ → Proc S L (Option ℕ)
  pub save : ℕ → Proc S L (Unit {0})
  pub update : ℕ → Proc S L (Unit {0})
  pub exists : ℕ → Proc S L Bool

-- `ITransactionRepository`, without `update`, which no caller uses.
pub record TransactionRepository (S L : Type 0) : Type 0 where
  pub get : ℕ → Proc S L (Option ℕ)
  pub get_by_idempotency_key : String → Proc S L (Option ℕ)
  pub save : ℕ → Proc S L (Unit {0})

-- `IUnitOfWork`; `exit` is told whether an exception leaves the block.
pub record UnitOfWork (S L : Type 0) : Type 0 where
  pub accounts : AccountRepository S L
  pub transactions : TransactionRepository S L
  pub enter : World S L → World S L
  pub exit : Bool → World S L → World S L
  pub commit : Proc S L (Unit {0})

-- `ILockManager.acquire`, a context manager: `acquire` runs up to the `yield` and tells which keys
-- it got, also if it raises; `release` is its `finally`.
pub record LockManager (S L : Type 0) : Type 0 where
  pub acquire : List ℕ → World S L → Result (Unit {0}) × List ℕ × World S L
  pub release : List ℕ → World S L → World S L

-- A lock manager that does not write to the storage.
pub record Separate {S L : Type 0} (lock : LockManager S L) : Type 0 where
  pub acquire_store : (keys : List ℕ) (w : World S L) → (lock.acquire keys w).2.store ≡ w.store
  pub release_store : (keys : List ℕ) (w : World S L) → (lock.release keys w).store ≡ w.store

-- A lock manager that writes to the locks only.
pub record Isolated {S L : Type 0} (lock : LockManager S L) : Type 0 where
  pub acquire_frame :
      (keys : List ℕ) (w : World S L)
      → (lock.acquire keys w).2 ≡ record w { locks = (lock.acquire keys w).2.locks }
  pub release_frame :
      (keys : List ℕ) (w : World S L)
      → lock.release keys w ≡ record w { locks = (lock.release keys w).locks }

abbrev pub failed : {A : Type 0} → Result A → Bool
failed (ok _) = false
failed (err _) = true

module _ {S L A : Type 0} where
  -- `async with self._uow as uow: body`
  abbrev pub with_uow : UnitOfWork S L → Proc S L A → Proc S L A
  with_uow uow body w = let (r, w') = body (uow.enter w) in (r, uow.exit (failed r) w')

  -- `async with self._lock.acquire(*keys): body`
  abbrev pub with_lock : LockManager S L → List ℕ → Proc S L A → Proc S L A
  with_lock lock keys body w =
      let (r, held, w1) = lock.acquire keys w in
      let (r2, w2) = continue r (λ _. body) w1 in (r2, lock.release held w2)
