-- ===== src/Tests/Server.antt =====
-- A server of locks with a clock, for the tests.
use banking_transaction_syst.Prelude.{
  ℕ, ◌+◌, ◌≤◌, String, ◌≡◌, refl, ap, sym, Bool, true, false, arith,
}
use banking_transaction_syst.Prelude.Tests.{string_eq}
use banking_transaction_syst.Domain.Exceptions.{Exn, Result, ok, err, library}
use banking_transaction_syst.Adapters.Redis.{Redis, Config}
use banking_transaction_syst.Adapters.Redis.Waiting.{Clock}
use banking_transaction_syst.Adapters.Redis.Locking.{Keys, Answered, Deaf, with_key}

pub record Server : Type 0 where
  pub time : ℕ
  pub held : String → Bool

abbrev reply : Bool → String → Server → Result Bool × Server
reply true key r = (ok false, r)
reply false key r = (ok true, record r { held = with_key r.held key true })

abbrev pub server : Redis Server
server = record {
  set_nx = λ key ttl r. reply (r.held key) key r;
  delete = λ key r. (ok tt, record r { held = with_key r.held key false });
  now = λ r. r.time;
  sleep = λ n r. record r { time = r.time + n };
}

abbrev pub config : Config
config = record { wait_timeout = 5000000; timeout_text = "5.0" }

pub same_time : (b : Bool) (key : String) (r : Server) → r.time ≤ (reply b key r).1.time
same_time true key r = omega arith
same_time false key r = omega arith

abbrev pub clock : Clock server
clock = record { sleeps = λ n r. omega arith; passes = λ key ttl r. same_time (r.held key) key r }

pub added_lem :
    (b : Bool) (k : String) (r r1 : Server)
    → r.held k ≡ b
    → reply b k r ≡ (ok true, r1)
    → (r.held k ≡ false) × ((j : String) → r1.held j ≡ with_key r.held k true j)
added_lem true k r r1 e h = absurd (cc h)
added_lem false k r r1 e h = (e, λ j. ap (λ (q : Result Bool × Server). q.1.held j) (sym h))

pub present_lem :
    (b : Bool) (k : String) (r r1 : Server)
    → reply b k r ≡ (ok false, r1)
    → (j : String) → r1.held j ≡ r.held j
present_lem true k r r1 h j = ap (λ (q : Result Bool × Server). q.1.held j) (sym h)
present_lem false k r r1 h j = absurd (cc h)

pub broken_lem : (b : Bool) (k : String) (r r1 : Server) (e : Exn) → ¬ (reply b k r ≡ (err e, r1))
broken_lem true k r r1 e h = absurd (cc h)
broken_lem false k r r1 e h = absurd (cc h)

abbrev pub keys : Keys server
keys = record {
  held = λ r. r.held;
  added = λ k ttl r r1 h. added_lem (r.held k) k r r1 refl h;
  present = λ k ttl r r1 h. present_lem (r.held k) k r r1 h;
  broken = λ k ttl r r1 e h. absurd (broken_lem (r.held k) k r r1 e h);
  removed = λ k r r1 h j. ap (λ (q : Result (Unit {0}) × Server). q.1.held j) (sym h);
  undecided = λ k r r1 e h j other. absurd (cc h);
  idle = λ n r j. refl;
}

abbrev pub answered : Answered server
answered = record {
  sets = λ k ttl r r1 e h. broken_lem (r.held k) k r r1 e h;
  deletes = λ k r r1 e h. absurd (cc h);
}

-- The same server when no `delete` reaches it.
abbrev pub deaf_server : Redis Server
deaf_server = record server { delete = λ key r. (err (library "ConnectionError" ""), r) }

abbrev pub deaf_keys : Keys deaf_server
deaf_keys = record {
  held = λ r. r.held;
  added = λ k ttl r r1 h. added_lem (r.held k) k r r1 refl h;
  present = λ k ttl r r1 h. present_lem (r.held k) k r r1 h;
  broken = λ k ttl r r1 e h. absurd (broken_lem (r.held k) k r r1 e h);
  removed = λ k r r1 h. absurd (cc h);
  undecided = λ k r r1 e h j other. ap (λ (q : Result (Unit {0}) × Server). q.1.held j) (sym h);
  idle = λ n r j. refl;
}

abbrev pub deaf : Deaf deaf_server
deaf = record { error = library "ConnectionError" ""; lost = λ k r. refl }

abbrev pub deaf_clock : Clock deaf_server
deaf_clock = record {
  sleeps = λ n r. omega arith;
  passes = λ key ttl r. same_time (r.held key) key r;
}

abbrev pub nothing_held : Server
nothing_held = record { time = 7; held = λ key. false }

-- A key that is always held.
abbrev pub busy : Redis Server
busy = record server { set_nx = λ key ttl r. (ok false, r) }

abbrev pub busy_clock : Clock busy
busy_clock = record { sleeps = λ n r. omega arith; passes = λ key ttl r. omega arith }
