-- ===== src/Migrations/Runs.antt =====
-- A migration as the sequence of its operations, which stops at the first that raises.
use banking_transaction_syst.Prelude.{List, [], ◌∷◌}
use banking_transaction_syst.Domain.Exceptions.{Result, ok, err}
use banking_transaction_syst.Migrations.Schema.{Create, Drop, Operations}

module _ {S : Type 0} where
  abbrev pub then : Result S → (S → Result S) → Result S
  then (ok s) f = f s
  then (err e) f = err e

  module _ (op : Operations S) where
    unfoldable pub creates : List Create → S → Result S
    creates [] s = ok s
    creates (c ∷ cs) s = then (op.create c s) (creates cs)

    unfoldable pub drops : List Drop → S → Result S
    drops [] s = ok s
    drops (d ∷ ds) s = then (op.drop d s) (drops ds)
