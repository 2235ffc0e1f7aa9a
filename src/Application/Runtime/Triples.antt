-- ===== src/Application/Runtime/Triples.antt =====
-- What a coroutine establishes: one condition on the process if it returns, another if it raises.
use banking_transaction_syst.Prelude.{ℕ, ◌≡◌, refl}
use banking_transaction_syst.Domain.Exceptions.{Exn, Result, ok, err}
use banking_transaction_syst.Domain.Base.{Draw}
use banking_transaction_syst.Domain.Account.{Account}
use banking_transaction_syst.Domain.Transaction.{Transaction}
use banking_transaction_syst.Application.Runtime.{
  World, Env, Proc, ◌>>=◌, continue, handle, attempt, put_account, put_transaction, new_account,
  new_transaction, drawn, on_account, on_transaction,
}

module _ {S L : Type 0} where
  abbrev pub Outcome :
      {A : Type 0} (Q : A → World S L → Type 0) (R : World S L → Type 0)
      → Result A × World S L
      → Type 0
  Outcome Q R (ok a, w) = Q a w
  Outcome Q R (err e, w) = R w

  -- From `P`, the coroutine returns with `Q` or raises with `R`.
  pub record Triple {A : Type 0} (P : World S L → Type 0) (k : Proc S L A)
      (Q : A → World S L → Type 0) (R : World S L → Type 0) : Type 0 where
    pub holds : (w : World S L) → P w → Outcome Q R (k w)

  module _ {A : Type 0} {Q : A → World S L → Type 0} {R : World S L → Type 0} where
    outcome_weaken :
        {Q' : A → World S L → Type 0} {R' : World S L → Type 0}
        → ((a : A) (w : World S L) → Q a w → Q' a w)
        → ((w : World S L) → R w → R' w)
        → (q : Result A × World S L) → Outcome Q R q
        → Outcome Q' R' q
    outcome_weaken hq hr (ok a, w) h = hq a w h
    outcome_weaken hq hr (err e, w) h = hr w h

    continue_outcome :
        {B : Type 0} {Q' : B → World S L → Type 0} (f : A → Proc S L B)
        → ((a : A) → Triple (Q a) (f a) Q' R)
        → (q : Result A × World S L) → Outcome Q R q
        → Outcome Q' R (continue q.0 f q.1)
    continue_outcome f t (ok a, w) h = (t a).holds w h
    continue_outcome f t (err e, w) h = h

    handle_outcome :
        {R' : World S L → Type 0} (f : Exn → Proc S L A)
        → ((e : Exn) → Triple R (f e) Q R')
        → (q : Result A × World S L) → Outcome Q R q
        → Outcome Q R' (handle q.0 f q.1)
    handle_outcome f t (ok a, w) h = h
    handle_outcome f t (err e, w) h = (t e).holds w h

  module _ {A : Type 0} {P : World S L → Type 0} {Q : A → World S L → Type 0}
      {R : World S L → Type 0} where
    pub weaken :
        {P' : World S L → Type 0} {Q' : A → World S L → Type 0} {R' : World S L → Type 0}
        {k : Proc S L A}
        → ((w : World S L) → P' w → P w)
        → ((a : A) (w : World S L) → Q a w → Q' a w)
        → ((w : World S L) → R w → R' w)
        → Triple P k Q R
        → Triple P' k Q' R'
    weaken {k} hp hq hr t = record {
      holds = λ w p. outcome_weaken hq hr (k w) (t.holds w (hp w p));
    }

    pub bind-Triple :
        {B : Type 0} {Q' : B → World S L → Type 0} (k : Proc S L A) (f : A → Proc S L B)
        → Triple P k Q R
        → ((a : A) → Triple (Q a) (f a) Q' R)
        → Triple P (k >>= f) Q' R
    bind-Triple k f t u = record { holds = λ w p. continue_outcome f u (k w) (t.holds w p) }

    pub attempt-Triple :
        {R' : World S L → Type 0} (k : Proc S L A) (f : Exn → Proc S L A)
        → Triple P k Q R
        → ((e : Exn) → Triple R (f e) Q R')
        → Triple P (attempt k f) Q R'
    attempt-Triple k f t u = record { holds = λ w p. handle_outcome f u (k w) (t.holds w p) }

  -- The same condition on both ways out.
  both_outcome :
      {A : Type 0} (R : World S L → Type 0) (q : Result A × World S L)
      → R q.1
      → Outcome (λ _. R) R q
  both_outcome R (ok a, w) h = h
  both_outcome R (err e, w) h = h

  pub both-Triple :
      {A : Type 0} {P R : World S L → Type 0} (k : Proc S L A)
      → ((w : World S L) → P w → R (k w).1)
      → Triple P k (λ _. R) R
  both-Triple {R} k h = record { holds = λ w p. both_outcome R (k w) (h w p) }

  -- A coroutine that leaves the process alone.
  pub still-Triple :
      {A : Type 0} {R : World S L → Type 0} (r : World S L → Result A)
      → Triple R (λ w. (r w, w)) (λ _. R) R
  still-Triple r = both-Triple (λ w. (r w, w)) (λ w h. h)

  -- A method of an aggregate does not touch the storage.
  module _ (env : Env) where
    put_account_store :
        (ref : ℕ) (r : Result Account) (w : World S L) → (put_account ref r w).1.store ≡ w.store
    unfolding put_account
    put_account_store ref (ok a) w = refl
    put_account_store ref (err e) w = refl

    pub on_account_store :
        (method : Draw → Account → Result Account) (ref : ℕ) (w : World S L)
        → (on_account env method ref w).1.store ≡ w.store
    unfolding on_account
    on_account_store method ref w =
        put_account_store ref (method (env.supply w.draws) (w.accounts ref)) (drawn env w)

    put_transaction_store :
        (ref : ℕ) (r : Result Transaction) (w : World S L)
        → (put_transaction ref r w).1.store ≡ w.store
    unfolding put_transaction
    put_transaction_store ref (ok t) w = refl
    put_transaction_store ref (err e) w = refl

    pub on_transaction_store :
        (method : Draw → Transaction → Result Transaction) (ref : ℕ) (w : World S L)
        → (on_transaction env method ref w).1.store ≡ w.store
    unfolding on_transaction
    on_transaction_store method ref w =
        put_transaction_store ref (method (env.supply w.draws) (w.transactions ref)) (drawn env w)

  pub new_transaction_store :
      (r : Result Transaction) (w : World S L) → (new_transaction r w).1.store ≡ w.store
  unfolding new_transaction
  new_transaction_store (ok t) w = refl
  new_transaction_store (err e) w = refl

  pub new_account_store : (r : Result Account) (w : World S L) → (new_account r w).1.store ≡ w.store
  unfolding new_account
  new_account_store (ok a) w = refl
  new_account_store (err e) w = refl
