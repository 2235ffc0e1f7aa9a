-- ===== src/Adapters/Redis/Blocks.antt =====
-- Which keys are held before and after a block under the locks.
use banking_transaction_syst.Prelude.{
  ℕ, String, ◌≡◌, ◌≢◌, refl, ap, sym, ◌∙◌, true, false, List, [], ◌∷◌, arith,
}
use banking_transaction_syst.Prelude.Tests.{string_eq}
use banking_transaction_syst.Domain.Exceptions.{Result, ok, err}
use banking_transaction_syst.Adapters.Redis.{
  Redis, Config, default_ttl, lock_key, Reply, got_key, Acquired, acquire_single, acquire_keys,
  safe_release, release_keys, lock_manager,
}
use banking_transaction_syst.Application.Runtime.{World, Proc, continue}
use banking_transaction_syst.Application.Ports.{with_lock}
use banking_transaction_syst.Adapters.Redis.Waiting.{Clock}
use banking_transaction_syst.Adapters.Redis.Locking.{
  with_key, Keys, Answered, Effect, Grows, Same, single-Grows, single_exact, release_of,
}

module _ {R : Type 0} (redis : Redis R) (keys : Keys redis) (config : Config) (clock : Clock redis)
    (text : ℕ → String) where
  -- A property of the server before acquiring and after releasing, for any keys.
  module _ (Left : R → R → Type 0) (none_taken : (r : R) → Left r r)
      (one : (k : String) (r r1 r2 : R)
        → keys.held r k ≡ false
        → ((j : String) → keys.held r1 j ≡ with_key (keys.held r) k true j)
        → Left r1 r2
        → Left r (safe_release redis config k r2))
      (single : (k : String) (ttl : ℕ) (r : R)
        → Effect redis keys config Left k r (acquire_single redis config k ttl r)) where
    abbrev Released : R → Acquired redis config → Type 0
    Released r (q, got, r2) = Left r (release_keys redis config text got r2)

    got_key-Released :
        (key : ℕ) (rest : R → Acquired redis config) (r : R) (q : Reply redis config)
        → ((s : R) → Released s (rest s))
        → Effect redis keys config Left (lock_key text key) r q
        → Released r (got_key redis config key rest q)
    unfolding release_keys
    got_key-Released key rest r (err e, r1) ih h = h
    got_key-Released key rest r (ok _, r1) ih (free, added) =
        one (lock_key text key) r r1 _ free added (ih r1)

    acquire_keys-Released : (ks : List ℕ) (r : R) → Released r (acquire_keys redis config text ks r)
    unfolding acquire_keys release_keys
    acquire_keys-Released [] r = none_taken r
    acquire_keys-Released (k ∷ ks) r =
        got_key-Released k (acquire_keys redis config text ks) r _ (acquire_keys-Released ks)
          (single (lock_key text k) default_ttl r)

  released_other :
      (k : String) (r : R) (j : String)
      → j ≢ k
      → keys.held (safe_release redis config k r) j ≡ keys.held r j
  unfolding safe_release
  released_other k r j other = release_of redis keys config k r (redis.delete k r) refl j other

  one-Grows :
      (k : String) (r r1 r2 : R)
      → keys.held r k ≡ false
      → ((j : String) → keys.held r1 j ≡ with_key (keys.held r) k true j)
      → Grows redis keys config r1 r2
      → Grows redis keys config r (safe_release redis config k r2)
  one-Grows k r r1 r2 free added grows j h =
      released_other k r2 j other ∙ grows j (added j ∙ ground (arith, string_eq.beq_iff k j, h))
    where
      other : j ≢ k
      other e = absurd (cc (sym h ∙ (ap (keys.held r) e ∙ free)))

  deleted :
      Answered redis
      → (k : String) (r : R) (q : Result (Unit {0}) × R) → redis.delete k r ≡ q
      → (j : String) → keys.held q.1 j ≡ with_key (keys.held r) k false j
  deleted answered k r (ok _, r1) e = keys.removed k r r1 e
  deleted answered k r (err x, r1) e = absurd (answered.deletes k r r1 x e)

  one_restored :
      Answered redis
      → (k : String) (r r1 r2 : R) → keys.held r k ≡ false
      → ((j : String) → keys.held r1 j ≡ with_key (keys.held r) k true j)
      → Same redis keys config r1 r2
      → Same redis keys config r (safe_release redis config k r2)
  unfolding safe_release
  one_restored answered k r r1 r2 free added same j = ground (
    arith,
    deleted answered k r2 (redis.delete k r2) refl j,
    same j,
    added j,
    string_eq.beq_iff k j,
    free,
  )

  module _ {S A : Type 0} (body : Proc S R A)
      (still : (v : World S R) → (body v).1.locks ≡ v.locks) where
    body_locks :
        (q : Result (Unit {0})) (v : World S R) → (continue q (λ _. body) v).1.locks ≡ v.locks
    body_locks (ok _) v = still v
    body_locks (err e) v = refl

    -- No key expires and no other client calls, a sleep takes at least the time asked for and no
    -- call turns the clock back, and the body does not touch the locks. A `set` that raises has
    -- removed no key and a `delete` that raises has changed no other key; beyond that, a call that
    -- raises may have taken effect or not. A key that was held before the block is held after it,
    -- whether the locks were taken, were refused half way, or the body or a release raised: nobody
    -- else's lock is given away.
    pub with_lock_keeps_others :
        (ks : List ℕ) (w : World S R) (j : String)
        → keys.held w.locks j ≡ true
        → keys.held (with_lock (lock_manager redis config text) ks body w).1.locks j ≡ true
    with_lock_keeps_others ks w j =
        let q = acquire_keys redis config text ks w.locks in
        rw (body_locks q.0 (record w { locks = q.2 })) (
          acquire_keys-Released (Grows redis keys config) (λ r j h. h) one-Grows
            (single-Grows redis keys config clock) ks w.locks j)

    -- No call of `set` or `delete` raises, no key expires and no other client calls, a sleep takes at
    -- least the time asked for and no call turns the clock back, and the body does not touch the
    -- locks: whether the locks were taken, were refused half way, or the body raised, the keys held
    -- after the block are those held before it.
    pub with_lock_restores :
        Answered redis
        → (ks : List ℕ) (w : World S R) (j : String)
        → keys.held (with_lock (lock_manager redis config text) ks body w).1.locks j
          ≡ keys.held w.locks j
    with_lock_restores answered ks w j =
        let q = acquire_keys redis config text ks w.locks in
        rw (body_locks q.0 (record w { locks = q.2 })) (
          acquire_keys-Released (Same redis keys config) (λ r j. refl) (one_restored answered)
            (single_exact redis keys config answered clock) ks w.locks j)
