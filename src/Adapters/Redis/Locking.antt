-- ===== src/Adapters/Redis/Locking.antt =====
-- What the lock server promises about its keys, and what acquiring and releasing one key does.
use banking_transaction_syst.Prelude.{
  ℕ, ◌+◌, String, ◌≡◌, ◌≢◌, refl, sym, ◌∙◌, Bool, true, false, arith,
}
use banking_transaction_syst.Prelude.Tests.{◌==◌, string_eq, if◌then◌else◌}
use banking_transaction_syst.Domain.Exceptions.{Exn, Result, ok, err}
use banking_transaction_syst.Adapters.Redis.{Redis, Config, Reply, acquire_single, lock_manager}
use banking_transaction_syst.Application.Ports.{Separate, Isolated}
use banking_transaction_syst.Adapters.Redis.Waiting.{Clock, Run, acquire_single-Run}

abbrev pub with_key : (String → Bool) → String → Bool → String → Bool
with_key f k b j = if k == j then b else f j

-- The keys on the server while none expires and no other client calls: `set` with `nx` adds a key
-- that is not there, `delete` removes it. A call that raises may have taken effect or not: a `set`
-- that raises has removed nothing, and a `delete` that raises has not changed another key.
pub record Keys {R : Type 0} (redis : Redis R) : Type 0 where
  pub held : R → String → Bool
  pub added :
      (k : String) (ttl : ℕ) (r r1 : R)
      → redis.set_nx k ttl r ≡ (ok true, r1)
      → (held r k ≡ false) × ((j : String) → held r1 j ≡ with_key (held r) k true j)
  pub present :
      (k : String) (ttl : ℕ) (r r1 : R)
      → redis.set_nx k ttl r ≡ (ok false, r1)
      → (j : String) → held r1 j ≡ held r j
  pub broken :
      (k : String) (ttl : ℕ) (r r1 : R) (e : Exn)
      → redis.set_nx k ttl r ≡ (err e, r1)
      → (j : String) → held r j ≡ true
      → held r1 j ≡ true
  pub removed :
      (k : String) (r r1 : R)
      → redis.delete k r ≡ (ok tt, r1)
      → (j : String) → held r1 j ≡ with_key (held r) k false j
  pub undecided :
      (k : String) (r r1 : R) (e : Exn)
      → redis.delete k r ≡ (err e, r1)
      → (j : String) → j ≢ k
      → held r1 j ≡ held r j
  pub idle : (n : ℕ) (r : R) (j : String) → held (redis.sleep n r) j ≡ held r j

-- No call of `set` and of `delete` raises.
pub record Answered {R : Type 0} (redis : Redis R) : Type 0 where
  pub sets : (k : String) (ttl : ℕ) (r r1 : R) (e : Exn) → ¬ (redis.set_nx k ttl r ≡ (err e, r1))
  pub deletes : (k : String) (r r1 : R) (e : Exn) → ¬ (redis.delete k r ≡ (err e, r1))

-- Every `delete` raises before it reaches the server.
pub record Deaf {R : Type 0} (redis : Redis R) : Type 0 where
  pub error : Exn
  pub lost : (k : String) (r : R) → redis.delete k r ≡ (err error, r)

pub lock_manager-Separate :
    {R S : Type 0} (redis : Redis R) (config : Config) (text : ℕ → String)
    → Separate (lock_manager {S = S} redis config text)
lock_manager-Separate redis config text = record {
  acquire_store = λ keys w. refl;
  release_store = λ keys w. refl;
}

pub lock_manager-Isolated :
    {R S : Type 0} (redis : Redis R) (config : Config) (text : ℕ → String)
    → Isolated (lock_manager {S = S} redis config text)
lock_manager-Isolated redis config text = record {
  acquire_frame = λ keys w. refl;
  release_frame = λ keys w. refl;
}

module _ {R : Type 0} (redis : Redis R) (keys : Keys redis) (config : Config) where
  -- What one key's acquisition does to the keys held; `Left` relates the states where it raises.
  module _ (Left : R → R → Type 0) where
    abbrev pub Effect : String → R → Reply redis config → Type 0
    Effect k r (ok _, r1) =
        (keys.held r k ≡ false) × ((j : String) → keys.held r1 j ≡ with_key (keys.held r) k true j)
    Effect k r (err e, r1) = Left r r1

    module _ (still : (r r1 : R) → ((j : String) → keys.held r1 j ≡ keys.held r j) → Left r r1)
        (later : (r r1 r2 : R)
          → ((j : String) → keys.held r1 j ≡ keys.held r j)
          → Left r1 r2
          → Left r r2)
        (broke : (k : String) (ttl : ℕ) (r r1 : R) (e : Exn)
          → redis.set_nx k ttl r ≡ (err e, r1)
          → Left r r1) where
      Effect-from :
          (k : String) (r r1 : R) (q : Reply redis config)
          → ((j : String) → keys.held r1 j ≡ keys.held r j)
          → Effect k r1 q
          → Effect k r q
      Effect-from k r r1 (ok _, r2) same (free, added) =
          (sym (same k) ∙ free, λ j. ground (arith, added j, same j))
      Effect-from k r r1 (err e, r2) same h = later r r1 r2 same h

      Run-Effect :
          (k : String) (ttl deadline n : ℕ) (r : R) (q : Reply redis config)
          → Run redis config k ttl deadline r n q
          → Effect k r q
      Run-Effect k ttl deadline n r q (Run.got _ r1 e) = keys.added k ttl r r1 e
      Run-Effect k ttl deadline n r q (Run.broke _ r1 x e) = broke k ttl r r1 x e
      Run-Effect k ttl deadline n r q (Run.gave_up _ r1 e late) =
          still r r1 (keys.present k ttl r r1 e)
      Run-Effect k ttl deadline n r q (Run.again _ r1 m _ e early rest) =
          Effect-from k r _ q (λ j. keys.idle _ r1 j ∙ keys.present k ttl r r1 e j)
            (Run-Effect k ttl deadline m _ q rest)

      single-Effect :
          Clock redis
          → (k : String) (ttl : ℕ) (r : R) → Effect k r (acquire_single redis config k ttl r)
      single-Effect clock k ttl r =
          let (n, bound, run, ends) = acquire_single-Run redis config k ttl r clock in
          Run-Effect k ttl (redis.now r + config.wait_timeout) n r _ run

  -- No key is lost.
  abbrev pub Grows : R → R → Type 0
  Grows r r1 = (j : String) → keys.held r j ≡ true → keys.held r1 j ≡ true

  abbrev pub Same : R → R → Type 0
  Same r r1 = (j : String) → keys.held r1 j ≡ keys.held r j

  pub single-Grows :
      Clock redis
      → (k : String) (ttl : ℕ) (r : R) → Effect Grows k r (acquire_single redis config k ttl r)
  single-Grows =
      single-Effect Grows (λ r r1 same j h. same j ∙ h) (λ r r1 r2 same g j h. g j (same j ∙ h))
        (λ k ttl r r1 e h. keys.broken k ttl r r1 e h)

  pub single_exact :
      Answered redis
      → Clock redis
      → (k : String) (ttl : ℕ) (r : R) → Effect Same k r (acquire_single redis config k ttl r)
  single_exact answered =
      single-Effect Same (λ r r1 same. same) (λ r r1 r2 same s j. s j ∙ same j)
        (λ k ttl r r1 e h. absurd (answered.sets k ttl r r1 e h))

  -- A release changes no other key, also if it raises.
  pub release_of :
      (k : String) (r : R) (q : Result (Unit {0}) × R)
      → redis.delete k r ≡ q
      → (j : String) → j ≢ k
      → keys.held q.1 j ≡ keys.held r j
  release_of k r (ok _, r1) e j other =
      keys.removed k r r1 e j ∙ ground (arith, string_eq.beq_iff k j, other)
  release_of k r (err x, r1) e j other = keys.undecided k r r1 x e j other
