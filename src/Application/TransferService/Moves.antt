-- ===== src/Application/TransferService/Moves.antt =====
-- What the block that moves the money does, whatever the storage: the process after it, by the
-- outcome of the debit and of the credit.
use banking_transaction_syst.Prelude.{ℕ, suc, ◌≡◌, refl, ap, ◌∙◌, ◌≢◌, arith}
use banking_transaction_syst.Prelude.Tests.{nat_eq}
use banking_transaction_syst.Prelude.Dict.{update, update_self, update_ne}
use banking_transaction_syst.Domain.Enums.TransactionStatusEnum.{pending, can_process, can_complete}
use banking_transaction_syst.Domain.Amount.{Money}
use banking_transaction_syst.Domain.Exceptions.{Exn, ok, err}
use banking_transaction_syst.Domain.Base.{Draw}
use banking_transaction_syst.Domain.Account.{Account, debit, credit}
use banking_transaction_syst.Domain.Transaction.{
  Transaction, mark_processing, complete, processed, finished,
}
use banking_transaction_syst.Application.Runtime.{World, Env, on_account, on_transaction}
use banking_transaction_syst.Application.Runtime.Steps.{
  bind_ok, bind_err, on_account_ok, on_account_err, on_transaction_ok,
}
use banking_transaction_syst.Application.TransferService.{Parties, move_money}

module _ {S L : Type 0} (env : Env) (p : Parties) (m : Money) (w : World S L) (t : Transaction)
    (here : w.transactions p.tx ≡ t) (fresh : t.status ≡ pending) where
  -- The transaction after `mark_processing`.
  abbrev pub t1 : Transaction
  t1 = processed (env.supply w.draws) t

  abbrev pub w1 : World S L
  w1 = record w { transactions = update w.transactions p.tx t1; draws = suc w.draws }

  started : mark_processing (env.supply w.draws) (w.transactions p.tx) ≡ ok t1
  unfolding mark_processing can_process
  started = rw here (ground (arith, fresh))

  seen : update w.transactions p.tx t1 p.tx ≡ t1
  seen = update_self w.transactions p.tx t1

  -- The debit is refused: no balance has changed.
  pub move_money-debit_err :
      (e : Exn)
      → debit (env.supply (suc w.draws)) m t.id (w.accounts p.sender) ≡ err e
      → move_money env p m w ≡ (err e, record w1 { draws = suc (suc w.draws) })
  unfolding move_money
  move_money-debit_err e hd =
      bind_ok (on_transaction env mark_processing p.tx) _
        (on_transaction_ok env p.tx w mark_processing t1 started)
      ∙ bind_err (on_account env (λ d. debit d m (w1.transactions p.tx).id) p.sender) _ (
          on_account_err env p.sender w1 _ e (
            ap (λ (x : Transaction). debit (env.supply (suc w.draws)) m x.id (w.accounts p.sender))
              seen
            ∙ hd))

  module _ (a : Account)
      (hd : debit (env.supply (suc w.draws)) m t.id (w.accounts p.sender) ≡ ok a) where
    abbrev pub w2 : World S L
    w2 = record w1 { accounts = update w.accounts p.sender a; draws = suc (suc w.draws) }

    debited : on_account env (λ d. debit d m (w1.transactions p.tx).id) p.sender w1 ≡ (ok tt, w2)
    debited = on_account_ok env p.sender w1 _ a (
        ap (λ (x : Transaction). debit (env.supply (suc w.draws)) m x.id (w.accounts p.sender)) seen
        ∙ hd)

    module _ (other : p.sender ≢ p.receiver) where
      abbrev target : Account
      target = w.accounts p.receiver

      same_target :
          {A : Type 0} (f : ℕ → Account → A)
          → f (w2.transactions p.tx).id (w2.accounts p.receiver) ≡ f t.id target
      same_target f =
          ap (λ (x : Transaction). f x.id (w2.accounts p.receiver)) seen
          ∙ ap (f t.id) (update_ne w.accounts p.sender a p.receiver other)

      abbrev credit_draw : Draw
      credit_draw = env.supply (suc (suc w.draws))

      -- The credit is refused: the sender's object keeps the debited balance.
      pub move_money-credit_err :
          (e : Exn)
          → credit credit_draw m t.id target ≡ err e
          → move_money env p m w ≡ (err e, record w2 { draws = suc (suc (suc w.draws)) })
      unfolding move_money
      move_money-credit_err e hc =
          bind_ok (on_transaction env mark_processing p.tx) _
            (on_transaction_ok env p.tx w mark_processing t1 started)
          ∙ (bind_ok (on_account env (λ d. debit d m (w1.transactions p.tx).id) p.sender) _ debited
              ∙ bind_err (on_account env (λ d. credit d m (w1.transactions p.tx).id) p.receiver) _
                  (on_account_err env p.receiver w2 _ e (same_target (credit credit_draw m) ∙ hc)))

      -- The transaction after `complete`, and the process at the end of the block.
      abbrev pub t2 : Transaction
      t2 = finished (env.supply (suc (suc (suc w.draws)))) t1

      abbrev pub w4 : Account → World S L
      w4 b = record w2 {
        accounts = update w2.accounts p.receiver b;
        transactions = update w2.transactions p.tx t2;
        draws = suc (suc (suc (suc w.draws)));
      }

      ended : complete (env.supply (suc (suc (suc w.draws)))) (w2.transactions p.tx) ≡ ok t2
      unfolding complete can_complete
      ended = rw seen refl

      -- Both succeed, and the transaction is completed.
      pub move_money_ok :
          (b : Account)
          → credit credit_draw m t.id target ≡ ok b
          → move_money env p m w ≡ (ok tt, w4 b)
      unfolding move_money
      move_money_ok b hc =
          bind_ok (on_transaction env mark_processing p.tx) _
            (on_transaction_ok env p.tx w mark_processing t1 started)
          ∙ (bind_ok (on_account env (λ d. debit d m (w1.transactions p.tx).id) p.sender) _ debited
              ∙ (bind_ok (on_account env (λ d. credit d m (w1.transactions p.tx).id) p.receiver) _
                    (on_account_ok env p.receiver w2 _ b (same_target (credit credit_draw m) ∙ hc))
                  ∙ on_transaction_ok env p.tx _ complete t2 ended))
