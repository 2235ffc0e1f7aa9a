-- ===== src/Application/Runtime.antt =====
-- A running process: the aggregates live behind references, since a repository and the service
-- change one and the same object; beside them stand the state of the storage, of the locks and of
-- the event bus. A coroutine is a function from the process to a result and the process after it:
-- what was written before an exception stays written. Times, UUIDs and random digits are read
-- from an unknown supply.
pub mod Steps
pub mod Keeps
pub mod Triples
use banking_transaction_syst.Prelude.{ℕ, suc, String, Bool, true, false, List, ◌≡◌, refl}
use banking_transaction_syst.Prelude.Dict.{update}
use banking_transaction_syst.Domain.Exceptions.{Exn, Result, ok, err}
use banking_transaction_syst.Domain.Events.{DomainEvent}
use banking_transaction_syst.Domain.Base.{Draw}
use banking_transaction_syst.Domain.Account.{Account}
use banking_transaction_syst.Domain.Transaction.{Transaction}

pub record World (S L : Type 0) : Type 0 where
  pub accounts : ℕ → Account
  pub transactions : ℕ → Transaction
  pub next : ℕ
  pub store : S
  pub locks : L
  pub published : List DomainEvent
  pub draws : ℕ

-- What lies outside: the readings, in the order in which they are drawn, and the text of a UUID.
pub record Env : Type 0 where
  pub supply : ℕ → Draw
  pub uuid_text : ℕ → String

abbrev pub Proc : Type 0 → Type 0 → Type 0 → Type 0
Proc S L A = World S L → Result A × World S L

module _ {S L : Type 0} where
  abbrev pub pure : {A : Type 0} → A → Proc S L A
  pure a w = (ok a, w)

  abbrev pub raise : {A : Type 0} → Exn → Proc S L A
  raise e w = (err e, w)

  abbrev pub lift : {A : Type 0} → Result A → Proc S L A
  lift r w = (r, w)

  abbrev pub gets : {A : Type 0} → (World S L → A) → Proc S L A
  gets f w = (ok (f w), w)

  abbrev pub modify : (World S L → World S L) → Proc S L Unit
  modify f w = (ok tt, f w)

  abbrev pub continue : {A B : Type 0} → Result A → (A → Proc S L B) → Proc S L B
  continue (ok a) f w = f a w
  continue (err e) f w = (err e, w)

  infixl 5 ◌>>=◌ ◌>>◌
  abbrev pub ◌>>=◌ : {A B : Type 0} → Proc S L A → (A → Proc S L B) → Proc S L B
  ◌>>=◌ m f w = let (r, w') = m w in continue r f w'

  abbrev pub ◌>>◌ : {A B : Type 0} → Proc S L A → Proc S L B → Proc S L B
  m >> k = m >>= λ _. k

  -- `try: m except Exception as exc: handler(exc)`
  abbrev pub handle : {A : Type 0} → Result A → (Exn → Proc S L A) → Proc S L A
  handle (ok a) f w = (ok a, w)
  handle (err e) f w = f e w

  abbrev pub attempt : {A : Type 0} → Proc S L A → (Exn → Proc S L A) → Proc S L A
  attempt m f w = let (r, w') = m w in handle r f w'

  -- An object is changed by a method that did not raise.
  put_account : ℕ → Result Account → Proc S L Unit
  put_account ref (ok a) w = (ok tt, record w { accounts = update w.accounts ref a })
  put_account ref (err e) w = (err e, w)

  put_transaction : ℕ → Result Transaction → Proc S L Unit
  put_transaction ref (ok t) w = (ok tt, record w { transactions = update w.transactions ref t })
  put_transaction ref (err e) w = (err e, w)

  unfoldable pub new_transaction : Result Transaction → Proc S L ℕ
  new_transaction (ok t) w =
      (ok w.next, record w { transactions = update w.transactions w.next t; next = suc w.next })
  new_transaction (err e) w = (err e, w)

  unfoldable pub new_account : Result Account → Proc S L ℕ
  new_account (ok a) w =
      (ok w.next, record w { accounts = update w.accounts w.next a; next = suc w.next })
  new_account (err e) w = (err e, w)

  module _ (env : Env) where
    abbrev pub drawn : World S L → World S L
    drawn w = record w { draws = suc w.draws }

    -- A call of a method on the object behind a reference.
    unfoldable pub on_account : (Draw → Account → Result Account) → ℕ → Proc S L Unit
    unfolding put_account
    on_account method ref w =
        put_account ref (method (env.supply w.draws) (w.accounts ref)) (drawn w)

    unfoldable pub on_transaction : (Draw → Transaction → Result Transaction) → ℕ → Proc S L Unit
    unfolding put_transaction
    on_transaction method ref w =
        put_transaction ref (method (env.supply w.draws) (w.transactions ref)) (drawn w)

    -- A call of a class method that makes an object.
    unfoldable pub make_transaction : (Draw → Result Transaction) → Proc S L ℕ
    unfolding new_transaction
    make_transaction method w = new_transaction (method (env.supply w.draws)) (drawn w)

    unfoldable pub make_account : (Draw → Result Account) → Proc S L ℕ
    unfolding new_account
    make_account method w = new_account (method (env.supply w.draws)) (drawn w)
