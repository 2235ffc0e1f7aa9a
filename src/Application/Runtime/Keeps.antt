-- ===== src/Application/Runtime/Keeps.antt =====
-- What a coroutine keeps true of the process, whether it returns or raises.
use banking_transaction_syst.Domain.Exceptions.{Exn, Result, ok, err}
use banking_transaction_syst.Application.Runtime.{World, Proc, ◌>>=◌, continue, handle, attempt}

module _ {S L : Type 0} (I : World S L → Type 0) where
  -- `I` holds after `k` if it held before.
  pub record Preserves {A : Type 0} (k : Proc S L A) : Type 0 where
    pub keeps : (w : World S L) → I w → I (k w).1

  pub continue-Preserves :
      {A B : Type 0} (r : Result A) (f : A → Proc S L B)
      → ((a : A) → Preserves (f a))
      → Preserves (continue r f)
  continue-Preserves (ok a) f h = record { keeps = (h a).keeps }
  continue-Preserves (err e) f h = record { keeps = λ w i. i }

  pub bind-Preserves :
      {A B : Type 0} (k : Proc S L A) (f : A → Proc S L B)
      → Preserves k
      → ((a : A) → Preserves (f a))
      → Preserves (k >>= f)
  bind-Preserves k f hk hf = record {
    keeps = λ w i. (continue-Preserves (k w).0 f hf).keeps (k w).1 (hk.keeps w i);
  }

  handle-Preserves :
      {A : Type 0} (r : Result A) (f : Exn → Proc S L A)
      → ((e : Exn) → Preserves (f e))
      → Preserves (handle r f)
  handle-Preserves (ok a) f h = record { keeps = λ w i. i }
  handle-Preserves (err e) f h = record { keeps = (h e).keeps }

  pub attempt-Preserves :
      {A : Type 0} (k : Proc S L A) (f : Exn → Proc S L A)
      → Preserves k
      → ((e : Exn) → Preserves (f e))
      → Preserves (attempt k f)
  attempt-Preserves k f hk hf = record {
    keeps = λ w i. (handle-Preserves (k w).0 f hf).keeps (k w).1 (hk.keeps w i);
  }

  -- A coroutine that leaves the process alone.
  pub still : {A : Type 0} (r : World S L → Result A) → Preserves (λ w. (r w, w))
  still r = record { keeps = λ w i. i }
