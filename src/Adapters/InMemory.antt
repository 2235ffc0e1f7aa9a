-- ===== src/Adapters/InMemory.antt =====
-- The in-memory adapters: the repositories and the unit of work under
-- src/adapters/outbound/persistence, and locking/in_memory_lock_manager.py.
pub mod Locks
pub mod Success
pub mod Completion
pub mod Transfers
pub mod Failures
pub mod Accounts
pub mod Errors
pub mod Balance
pub mod Replays
use banking_transaction_syst.Prelude.{
  ℕ, String, Bool, true, false, not, Option, none, some, List, [], ◌∷◌, ◌++◌,
}
use banking_transaction_syst.Prelude.Tests.{◌==◌, nat_eq, string_eq, if◌then◌else◌}
use banking_transaction_syst.Prelude.Dict.{Dict, lookup, insert}
use banking_transaction_syst.Domain.Exceptions.{Exn, Result, ok, err, base}
use banking_transaction_syst.Domain.Exceptions.Classes.{concurrency_conflict}
use banking_transaction_syst.Application.Runtime.{World, Proc}
use banking_transaction_syst.Application.Ports.{
  AccountRepository, TransactionRepository, UnitOfWork, LockManager,
}

-- The two repositories and the flag of the unit of work. A store maps an id to an object.
pub record MemStore : Type 0 where
  pub accounts : Dict ℕ ℕ
  pub accounts_seen : List ℕ
  pub transactions : Dict ℕ ℕ
  pub by_idempotency : Dict String ℕ
  pub committed : Bool

-- The keys that are held.
abbrev pub Held : Type 0
Held = List ℕ

abbrev pub MemWorld : Type 0
MemWorld = World MemStore Held

abbrev pub MemProc : Type 0 → Type 0
MemProc A = MemWorld → Result A × MemWorld

unfoldable pub see : Option ℕ → MemWorld → MemWorld
see none w = w
see (some ref) w = record w {
  store = record w.store { accounts_seen = w.store.accounts_seen ++ (ref ∷ []) };
}

-- `InMemoryAccountRepository.get`
unfoldable pub account_get : ℕ → MemProc (Option ℕ)
unfolding see
account_get id w = let found = lookup id w.store.accounts in (ok found, see found w)

-- `save`, and the test helper `add`.
unfoldable pub account_save : ℕ → MemProc (Unit {0})
account_save ref w = (
  ok tt,
  record w {
    store = record w.store { accounts = insert (w.accounts ref).id ref w.store.accounts };
  },
)

unfoldable pub account_exists : ℕ → MemProc Bool
account_exists id w = (ok (elim (lookup id w.store.accounts) [ none ↦ false | some _ ↦ true ]), w)

-- The class has no `update`: it inherits the empty body of the protocol.
abbrev pub account_repository : AccountRepository MemStore Held
account_repository = record {
  get = account_get;
  get_with_lock = account_get;
  save = account_save;
  update = λ ref w. (ok tt, w);
  exists = account_exists;
}

-- `InMemoryTransactionRepository.get`
unfoldable pub transaction_get : ℕ → MemProc (Option ℕ)
transaction_get id w = (ok (lookup id w.store.transactions), w)

by_id : Dict ℕ ℕ → Option ℕ → Option ℕ
by_id store none = none
by_id store (some id) = lookup id store

unfoldable pub transaction_get_by_idempotency_key : String → MemProc (Option ℕ)
unfolding by_id
transaction_get_by_idempotency_key key w =
    (ok (by_id w.store.transactions (lookup key w.store.by_idempotency)), w)

unfoldable pub transaction_save : ℕ → MemProc (Unit {0})
transaction_save ref w =
    let t = w.transactions ref in
    (
      ok tt,
      record w {
        store = record w.store {
          transactions = insert t.id ref w.store.transactions;
          by_idempotency = insert t.idempotency_key t.id w.store.by_idempotency;
        };
      },
    )

abbrev pub transaction_repository : TransactionRepository MemStore Held
transaction_repository = record {
  get = transaction_get;
  get_by_idempotency_key = transaction_get_by_idempotency_key;
  save = transaction_save;
}

abbrev pub set_committed : Bool → MemWorld → MemWorld
set_committed b w = record w { store = record w.store { committed = b } }

-- `InMemoryUnitOfWork`: `__aexit__` and `rollback` do nothing.
abbrev pub unit_of_work : UnitOfWork MemStore Held
unit_of_work = record {
  accounts = account_repository;
  transactions = transaction_repository;
  enter = set_committed false;
  exit = λ raised w. w;
  commit = λ w. (ok tt, set_committed true w);
}

-- `key in self._held`
unfoldable pub holds : ℕ → Held → Bool
holds key [] = false
holds key (k ∷ ks) = if k == key then true else holds key ks

-- `self._held.discard(key)`
unfoldable pub discard : ℕ → Held → Held
discard key [] = []
discard key (k ∷ ks) = let rest = discard key ks in if k == key then rest else k ∷ rest

-- The loop of `acquire`: the keys that it got, and the keys held after it.
unfoldable pub acquire_keys : (ℕ → String) → List ℕ → Held → Result (Unit {0}) × List ℕ × Held
unfolding holds
acquire_keys text [] held = (ok tt, [], held)
acquire_keys text (key ∷ keys) held = elim (holds key held) [
  | true ↦ (err (base (concurrency_conflict (text key))), [], held)
  | false ↦ let (r, got, after) = acquire_keys text keys (key ∷ held) in (r, key ∷ got, after)
]

-- The `finally` of `acquire`.
unfoldable pub release_keys : List ℕ → Held → Held
unfolding discard
release_keys [] held = held
release_keys (key ∷ keys) held = release_keys keys (discard key held)

-- `InMemoryLockManager`
abbrev pub lock_manager : (ℕ → String) → LockManager MemStore Held
lock_manager text = record {
  acquire = λ keys w.
      let (r, got, held) = acquire_keys text keys w.locks in (r, got, record w { locks = held });
  release = λ keys w. record w { locks = release_keys keys w.locks };
}
