-- ===== src/Adapters/Redis.antt =====
-- `RedisLockManager` (src/adapters/outbound/locking/redis_lock_manager.py). The client of Redis, the
-- clock of the event loop and `asyncio.sleep` are parameters; times are in microseconds.
pub mod Waiting
pub mod Locking
pub mod Blocks
pub mod Failures
use banking_transaction_syst.Prelude.{
  ℕ, zero, suc, ◌+◌, ◌-◌, ◌/◌, String, ◌<>◌, Bool, true, false, Option, none, some, List, [], ◌∷◌,
  ◌++◌,
}
use banking_transaction_syst.Prelude.Tests.{leb, if◌then◌else◌}
use banking_transaction_syst.Domain.Exceptions.{Exn, Result, ok, err, base, library}
use banking_transaction_syst.Domain.Exceptions.Classes.{concurrency_conflict}
use banking_transaction_syst.Application.Runtime.{World}
use banking_transaction_syst.Application.Ports.{LockManager}

-- `set(key, "1", nx=True, ex=ttl)`, `delete(key)`, `loop.time()` and `asyncio.sleep(time)`, on a state
-- `R` of the server and of the event loop.
pub record Redis (R : Type 0) : Type 0 where
  pub set_nx : String → ℕ → R → Result Bool × R
  pub delete : String → R → Result (Unit {0}) × R
  pub now : R → ℕ
  pub sleep : ℕ → R → R

-- `_RETRY_INTERVAL_SECONDS`
abbrev pub retry_interval : ℕ
retry_interval = 50000

-- The default of `ttl_seconds`.
abbrev pub default_ttl : ℕ
default_ttl = 30

-- The wait timeout of the constructor, and the text of it in seconds.
pub record Config : Type 0 where
  pub wait_timeout : ℕ
  pub timeout_text : String

abbrev pub min : ℕ → ℕ → ℕ
min a b = if leb a b then a else b

unfoldable pub lock_key : (ℕ → String) → ℕ → String
lock_key text key = "banking:transfer:lock" <> ":" <> text key

unfoldable pub conflict : Config → String → Exn
conflict config key = base (
    concurrency_conflict (
      "Could not acquire lock '" <> key <> "' within " <> config.timeout_text
      <> "s — another transfer is processing the same account."))

module _ {R : Type 0} (redis : Redis R) (config : Config) where
  abbrev pub Reply : Type 0
  Reply = Result (Unit {0}) × R

  -- One round of the loop of `_acquire_single` after the reply to `set`.
  unfoldable pub after_set :
      (again : R → Option Reply) (key : String) (deadline : ℕ) → Result Bool × R → Option Reply
  after_set again key deadline (err e, r) = some (err e, r)
  after_set again key deadline (ok true, r) = some (ok tt, r)
  after_set again key deadline (ok false, r) = elim (leb deadline (redis.now r)) [
    | true ↦ some (err (conflict config key), r)
    | false ↦ again (redis.sleep (min retry_interval (deadline - redis.now r)) r)
  ]

  -- The loop; `none` means that the fuel was not enough.
  unfoldable pub attempts : ℕ → String → ℕ → ℕ → R → Option Reply
  unfolding after_set
  attempts zero key ttl deadline r = none
  attempts (suc fuel) key ttl deadline r =
      after_set (attempts fuel key ttl deadline) key deadline (redis.set_nx key ttl r)

  abbrev pub fuel : ℕ
  fuel = suc (suc (config.wait_timeout / retry_interval))

  finished : Option Reply → R → Reply
  finished none r = (err (library "OutOfFuel" ""), r)
  finished (some q) r = q

  -- `_acquire_single`
  unfoldable pub acquire_single : String → ℕ → R → Reply
  unfolding finished
  acquire_single key ttl r =
      finished (attempts fuel key ttl (redis.now r + config.wait_timeout) r) r

  abbrev Acquired : Type 0
  Acquired = Result (Unit {0}) × List ℕ × R

  abbrev got_key : ℕ → (R → Acquired) → Reply → Acquired
  got_key key rest (err e, r) = (err e, [], r)
  got_key key rest (ok _, r) = let (q, got, r2) = rest r in (q, key ∷ got, r2)

  -- The loop of `acquire`: the keys that it got, in order.
  unfoldable pub acquire_keys : (ℕ → String) → List ℕ → R → Acquired
  acquire_keys text [] r = (ok tt, [], r)
  acquire_keys text (key ∷ keys) r =
      got_key key (acquire_keys text keys) (acquire_single (lock_key text key) default_ttl r)

  -- `_safe_release`, which swallows an exception.
  unfoldable pub safe_release : String → R → R
  safe_release key r = (redis.delete key r).1

  -- The `finally` of `acquire`: the last key first.
  unfoldable pub release_keys : (ℕ → String) → List ℕ → R → R
  unfolding safe_release
  release_keys text [] r = r
  release_keys text (key ∷ keys) r = safe_release (lock_key text key) (release_keys text keys r)

-- `RedisLockManager`, whatever the storage; a key is written as its text.
abbrev pub lock_manager : {R S : Type 0} → Redis R → Config → (ℕ → String) → LockManager S R
lock_manager redis config text = record {
  acquire = λ keys w.
      let (q, got, r) = acquire_keys redis config text keys w.locks in
      (q, got, record w { locks = r });
  release = λ keys w. record w { locks = release_keys redis config text keys w.locks };
}
