-- ===== src/Application/Runtime/Steps.antt =====
-- One step of a coroutine at a time: a bind after its first part, and a method call on an object.
use banking_transaction_syst.Prelude.{ℕ, suc, ◌≡◌, ap}
use banking_transaction_syst.Prelude.Dict.{update}
use banking_transaction_syst.Domain.Exceptions.{Exn, Result, ok, err}
use banking_transaction_syst.Domain.Base.{Draw}
use banking_transaction_syst.Domain.Account.{Account}
use banking_transaction_syst.Domain.Transaction.{Transaction}
use banking_transaction_syst.Application.Runtime.{
  World, Env, Proc, ◌>>=◌, continue, handle, attempt, on_account, on_transaction, make_transaction,
  make_account,
}

module _ {S L : Type 0} where
  pub bind_ok :
      {A B : Type 0} (k : Proc S L A) (f : A → Proc S L B) {a : A} {w w' : World S L}
      → k w ≡ (ok a, w')
      → (k >>= f) w ≡ f a w'
  bind_ok {A} k f e = ap (λ (q : Result A × World S L). continue q.0 f q.1) e

  pub bind_err :
      {A B : Type 0} (k : Proc S L A) (f : A → Proc S L B) {e : Exn} {w w' : World S L}
      → k w ≡ (err e, w')
      → (k >>= f) w ≡ (err e, w')
  bind_err {A} k f e = ap (λ (q : Result A × World S L). continue q.0 f q.1) e

  pub attempt_ok :
      {A : Type 0} (k : Proc S L A) (f : Exn → Proc S L A) {a : A} {w w' : World S L}
      → k w ≡ (ok a, w')
      → attempt k f w ≡ (ok a, w')
  attempt_ok {A} k f e = ap (λ (q : Result A × World S L). handle q.0 f q.1) e

  pub attempt_err :
      {A : Type 0} (k : Proc S L A) (f : Exn → Proc S L A) {e : Exn} {w w' : World S L}
      → k w ≡ (err e, w')
      → attempt k f w ≡ f e w'
  attempt_err {A} k f e = ap (λ (q : Result A × World S L). handle q.0 f q.1) e

  module _ (env : Env) (ref : ℕ) (w : World S L) where
    pub on_account_ok :
        (method : Draw → Account → Result Account) (a : Account)
        → method (env.supply w.draws) (w.accounts ref) ≡ ok a
        → on_account env method ref w
          ≡ (ok tt, record w { accounts = update w.accounts ref a; draws = suc w.draws })
    unfolding on_account
    on_account_ok method a h = rw h

    pub on_account_err :
        (method : Draw → Account → Result Account) (e : Exn)
        → method (env.supply w.draws) (w.accounts ref) ≡ err e
        → on_account env method ref w ≡ (err e, record w { draws = suc w.draws })
    unfolding on_account
    on_account_err method e h = rw h

    pub on_transaction_ok :
        (method : Draw → Transaction → Result Transaction) (t : Transaction)
        → method (env.supply w.draws) (w.transactions ref) ≡ ok t
        → on_transaction env method ref w
          ≡ (ok tt, record w { transactions = update w.transactions ref t; draws = suc w.draws })
    unfolding on_transaction
    on_transaction_ok method t h = rw h

    pub on_transaction_err :
        (method : Draw → Transaction → Result Transaction) (e : Exn)
        → method (env.supply w.draws) (w.transactions ref) ≡ err e
        → on_transaction env method ref w ≡ (err e, record w { draws = suc w.draws })
    unfolding on_transaction
    on_transaction_err method e h = rw h

  module _ (env : Env) (w : World S L) where
    pub make_transaction_ok :
        (method : Draw → Result Transaction) (t : Transaction)
        → method (env.supply w.draws) ≡ ok t
        → make_transaction env method w ≡ (
          ok w.next,
          record w {
            transactions = update w.transactions w.next t;
            next = suc w.next;
            draws = suc w.draws;
          },
        )
    unfolding make_transaction
    make_transaction_ok method t h = rw h

    pub make_transaction_err :
        (method : Draw → Result Transaction) (e : Exn)
        → method (env.supply w.draws) ≡ err e
        → make_transaction env method w ≡ (err e, record w { draws = suc w.draws })
    unfolding make_transaction
    make_transaction_err method e h = rw h

    pub make_account_ok :
        (method : Draw → Result Account) (a : Account)
        → method (env.supply w.draws) ≡ ok a
        → make_account env method w ≡ (
          ok w.next,
          record w {
            accounts = update w.accounts w.next a;
            next = suc w.next;
            draws = suc w.draws;
          },
        )
    unfolding make_account
    make_account_ok method a h = rw h
