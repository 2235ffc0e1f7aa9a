-- ===== src/Adapters/Redis/Failures.antt =====
-- A block under the locks whose releases do not reach the server.
use banking_transaction_syst.Prelude.{ℕ, String, ◌≡◌, refl, ap, ◌∙◌, true, List, [], ◌∷◌, arith}
use banking_transaction_syst.Prelude.Tests.{string_eq}
use banking_transaction_syst.Domain.Exceptions.{Result, ok, err}
use banking_transaction_syst.Adapters.Redis.{
  Redis, Config, default_ttl, lock_key, Reply, got_key, Acquired, acquire_keys, safe_release,
  release_keys, lock_manager,
}
use banking_transaction_syst.Application.Runtime.{World, Proc}
use banking_transaction_syst.Application.Ports.{with_lock}
use banking_transaction_syst.Adapters.Redis.Waiting.{Clock}
use banking_transaction_syst.Adapters.Redis.Locking.{
  with_key, Keys, Deaf, Effect, Grows, single-Grows,
}

module _ {R : Type 0} (redis : Redis R) (keys : Keys redis) (config : Config) (clock : Clock redis)
    (text : ℕ → String) where
  -- The server holds each of the keys.
  abbrev pub AllHeld : List ℕ → R → Type 0
  AllHeld [] r = Unit {0}
  AllHeld (k ∷ ks) r = (keys.held r (lock_key text k) ≡ true) × AllHeld ks r

  -- What acquiring some keys establishes where it returns.
  abbrev Taken : List ℕ → R → Acquired redis config → Type 0
  Taken ks r (ok _, got, r2) = AllHeld ks r2 × Grows redis keys config r r2
  Taken ks r (err e, got, r2) = Unit {0}

  grown :
      (k : String) (r r1 : R)
      → ((j : String) → keys.held r1 j ≡ with_key (keys.held r) k true j)
      → Grows redis keys config r r1
  grown k r r1 added j h = ground (arith, added j, string_eq.beq_iff k j)

  both :
      (key : ℕ) (ks : List ℕ) (r r1 : R) (q : Acquired redis config)
      → ((j : String) → keys.held r1 j ≡ with_key (keys.held r) (lock_key text key) true j)
      → Taken ks r1 q
      → Taken (key ∷ ks) r (q.0, key ∷ q.1, q.2)
  both key ks r r1 (ok _, got, r2) added (all, grows) =
      let k = lock_key text key in
      (
        (grows k (added k ∙ ground (arith, string_eq.beq_iff k k)), all),
        λ j h. grows j (grown k r r1 added j h),
      )
  both key ks r r1 (err e, got, r2) added h = tt

  got_key-Taken :
      (key : ℕ) (ks : List ℕ) (rest : R → Acquired redis config) (r : R) (q : Reply redis config)
      → ((s : R) → Taken ks s (rest s))
      → Effect redis keys config (Grows redis keys config) (lock_key text key) r q
      → Taken (key ∷ ks) r (got_key redis config key rest q)
  got_key-Taken key ks rest r (err e, r1) ih h = tt
  got_key-Taken key ks rest r (ok _, r1) ih (free, added) = both key ks r r1 (rest r1) added (ih r1)

  acquire_keys-Taken : (ks : List ℕ) (r : R) → Taken ks r (acquire_keys redis config text ks r)
  unfolding acquire_keys
  acquire_keys-Taken [] r = (tt, λ j h. h)
  acquire_keys-Taken (k ∷ ks) r =
      got_key-Taken k ks (acquire_keys redis config text ks) r _ (acquire_keys-Taken ks)
        (single-Grows redis keys config clock (lock_key text k) default_ttl r)

  all-Taken :
      (ks : List ℕ) (r : R) (q : Acquired redis config)
      → Taken ks r q
      → q.0 ≡ ok tt
      → AllHeld ks q.2
  all-Taken ks r (ok _, got, r2) (all, grows) h = all
  all-Taken ks r (err e, got, r2) taken h = absurd (cc h)

  module _ (deaf : Deaf redis) where
    unreleased : (got : List ℕ) (r : R) → release_keys redis config text got r ≡ r
    unfolding release_keys safe_release
    unreleased [] r = refl
    unreleased (k ∷ got) r =
        ap (λ (q : Result (Unit {0}) × R). q.1) (deaf.lost (lock_key text k) _) ∙ unreleased got r

    module _ {S A : Type 0} (body : Proc S R A)
        (still : (v : World S R) → (body v).1.locks ≡ v.locks) where
      -- No key expires and no other client calls, a sleep takes at least the time asked for and no
      -- call turns the clock back, a `set` that raises has removed no key, and every `delete` raises
      -- before it reaches the server; the body does not touch the locks, and the locks were taken: the
      -- block answers what the body answers, with no sign of the failed releases, and every one of its
      -- keys is still held after it.
      pub failed_release_keeps_keys :
          (ks : List ℕ) (w : World S R)
          → (acquire_keys redis config text ks w.locks).0 ≡ ok tt
          → let (answer, w') = with_lock (lock_manager redis config text) ks body w in
            (answer ≡ (body (record w { locks = (acquire_keys redis config text ks w.locks).2 })).0)
            × AllHeld ks w'.locks
      failed_release_keeps_keys ks w granted =
          let q = acquire_keys redis config text ks w.locks in
          let inside : World S R = record w { locks = q.2 } in
          rw granted (
            refl,
            rw (unreleased q.1 (body inside).1.locks, still inside)
                (all-Taken ks w.locks q (acquire_keys-Taken ks w.locks) granted),
          )
