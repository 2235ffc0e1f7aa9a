-- ===== src/Adapters/Redis/Waiting.antt =====
-- The retry loop: it ends, and how.
use banking_transaction_syst.Prelude.{
  ℕ, zero, suc, ◌+◌, ◌-◌, ◌*◌, ◌/◌, ◌≤◌, ◌<◌, String, ◌≡◌, refl, ap, Bool, true, false, Option,
  some, inl, inr, arith,
}
use banking_transaction_syst.Prelude.Tests.{leb, Bool-cases}
use banking_transaction_syst.Domain.Exceptions.{Exn, Result, ok, err}
use banking_transaction_syst.Adapters.Redis.{
  Redis, Config, retry_interval, min, conflict, Reply, after_set, attempts, fuel, finished,
  acquire_single,
}

-- A sleep takes at least the time that was asked for, and no call turns the clock back.
pub record Clock {R : Type 0} (redis : Redis R) : Type 0 where
  pub sleeps : (n : ℕ) (r : R) → redis.now r + n ≤ redis.now (redis.sleep n r)
  pub passes : (key : String) (ttl : ℕ) (r : R) → redis.now r ≤ redis.now (redis.set_nx key ttl r).1

module _ {R : Type 0} (redis : Redis R) (config : Config) (key : String) (ttl deadline : ℕ) where
  -- The runs of the loop that the source allows, with the number of times that it asks for the key.
  pub data Run : R → ℕ → Reply redis config → Type 0 where
    got : (r r1 : R) → redis.set_nx key ttl r ≡ (ok true, r1) → Run r 1 (ok tt, r1)
    broke : (r r1 : R) (e : Exn) → redis.set_nx key ttl r ≡ (err e, r1) → Run r 1 (err e, r1)
    gave_up :
        (r r1 : R)
        → redis.set_nx key ttl r ≡ (ok false, r1)
        → deadline ≤ redis.now r1
        → Run r 1 (err (conflict config key), r1)
    again :
        (r r1 : R) (n : ℕ) (q : Reply redis config)
        → redis.set_nx key ttl r ≡ (ok false, r1)
        → redis.now r1 < deadline
        → Run (redis.sleep (min retry_interval (deadline - redis.now r1)) r1) n q
        → Run r (suc n) q

  record Ended (n : ℕ) (r : R) (o : Option (Reply redis config)) : Type 0 where
    reply : Reply redis config
    tries : ℕ
    ends : o ≡ some reply
    run : Run r tries reply
    bound : tries ≤ n

  module _ (clock : Clock redis) where
    -- What the rounds that are left do.
    abbrev Rest : ℕ → Type 0
    Rest n =
        (r : R)
        → deadline ≤ redis.now r + (n - 1) * retry_interval
        → 0 < n
        → Ended n r (attempts redis config n key ttl deadline r)

    module _ (n : ℕ) (r r1 : R) (busy : redis.set_nx key ttl r ≡ (ok false, r1))
        (h : deadline ≤ redis.now r + n * retry_interval) (soon : redis.now r1 < deadline) where
      abbrev pause : ℕ
      pause = min retry_interval (deadline - redis.now r1)

      no_later : redis.now r ≤ redis.now r1
      no_later = let p = clock.passes key ttl r in rw busy at p

      rested :
          Rest n
          → Ended n
              (redis.sleep pause r1)
              (attempts redis config n key ttl deadline (redis.sleep pause r1))
      rested next =
          next (redis.sleep pause r1) (ground (arith, no_later, soon, clock.sleeps pause r1))
            (omega (arith, no_later))

      retried :
          Rest n → Ended (suc n) r (attempts redis config n key ttl deadline (redis.sleep pause r1))
      retried next =
          let rest = rested next in
          record {
            reply = rest.reply;
            tries = suc rest.tries;
            ends = rest.ends;
            run = again r r1 rest.tries rest.reply busy soon rest.run;
            bound = omega (arith, rest.bound);
          }

    round :
        (n : ℕ) (r : R) (q : Result Bool × R)
        → redis.set_nx key ttl r ≡ q
        → deadline ≤ redis.now r + n * retry_interval
        → Rest n
        → Ended
            (suc n)
            r
            (after_set redis config (attempts redis config n key ttl deadline) key deadline q)
    unfolding after_set
    round n r (err e, r1) eq h next = record {
      reply = _;
      tries = 1;
      ends = refl;
      run = broke r r1 e eq;
      bound = omega arith;
    }
    round n r (ok true, r1) eq h next = record {
      reply = _;
      tries = 1;
      ends = refl;
      run = got r r1 eq;
      bound = omega arith;
    }
    round n r (ok false, r1) eq h next = elim (Bool-cases (leb deadline (redis.now r1))) [
      | inl late ↦
          rw (late, after_set)
            (record {
              reply = _;
              tries = 1;
              ends = refl;
              run = gave_up r r1 eq (ground (arith, late));
              bound = omega arith;
            })
      | inr early ↦ rw (early, after_set) (retried n r r1 eq h (ground (arith, early)) next)
    ]

    loop :
        (n : ℕ) (r : R)
        → deadline ≤ redis.now r + n * retry_interval
        → Ended (suc n) r (attempts redis config (suc n) key ttl deadline r)
    unfolding attempts
    loop zero r h = round zero r (redis.set_nx key ttl r) refl h (λ r' h' p. absurd (omega arith))
    loop (suc n) r h =
        round (suc n) r (redis.set_nx key ttl r) refl h (λ r' h' p. loop n r' (omega arith))

module _ {R : Type 0} (redis : Redis R) (config : Config) where
  finished_some :
      (key : String) (ttl : ℕ) (r : R) (q : Reply redis config)
      → attempts redis config (fuel redis config) key ttl (redis.now r + config.wait_timeout) r
        ≡ some q
      → acquire_single redis config key ttl r ≡ q
  unfolding acquire_single finished
  finished_some key ttl r q h = ap (λ o. finished redis config o r) h

  -- A sleep takes at least the time asked for and no call turns the clock back: `_acquire_single`
  -- ends by a run of its loop, after at most two requests more than the retry intervals that the
  -- wait timeout has, and its fuel is enough.
  pub acquire_single-Run :
      (key : String) (ttl : ℕ) (r : R)
      → Clock redis
      → (n : ℕ) × (n ≤ config.wait_timeout / retry_interval + 2)
        × Run redis config key ttl
            (redis.now r + config.wait_timeout)
            r
            n
            (acquire_single redis config key ttl r)
        × (attempts redis config (fuel redis config) key ttl (redis.now r + config.wait_timeout) r
            ≡ some (acquire_single redis config key ttl r))
  acquire_single-Run key ttl r clock =
      let e =
        loop redis config key ttl (redis.now r + config.wait_timeout) clock
          (suc (config.wait_timeout / retry_interval)) r (omega arith) in
      let same = finished_some key ttl r e.reply e.ends in
      (e.tries, omega (arith, e.bound), rw same e.run, rw same e.ends)

  busy_Run :
      (key : String) (ttl deadline n : ℕ) (r : R) (q : Reply redis config)
      → ((s : R) → (redis.set_nx key ttl s).0 ≡ ok false)
      → Run redis config key ttl deadline r n q
      → (q.0 ≡ err (conflict config key)) × (deadline ≤ redis.now q.1)
  busy_Run key ttl deadline n r q busy (Run.got _ r1 e) = absurd (cc (busy r, ap (λ p. p.0) e))
  busy_Run key ttl deadline n r q busy (Run.broke _ r1 x e) = absurd (cc (busy r, ap (λ p. p.0) e))
  busy_Run key ttl deadline n r q busy (Run.gave_up _ r1 e late) = (refl, late)
  busy_Run key ttl deadline n r q busy (Run.again _ r1 k _ e early rest) =
      busy_Run key ttl deadline k _ q busy rest

  -- A sleep takes at least the time asked for, no call turns the clock back, and the key is held by
  -- someone else all the time: the answer is a concurrency conflict, and not before the wait
  -- timeout has passed.
  pub busy_key_conflicts :
      (key : String) (ttl : ℕ) (r : R)
      → Clock redis
      → ((s : R) → (redis.set_nx key ttl s).0 ≡ ok false)
      → let (answer, r') = acquire_single redis config key ttl r in
        (answer ≡ err (conflict config key)) × (redis.now r + config.wait_timeout ≤ redis.now r')
  busy_key_conflicts key ttl r clock busy =
      let (n, bound, run, ends) = acquire_single-Run key ttl r clock in
      busy_Run key ttl (redis.now r + config.wait_timeout) n r _ busy run
