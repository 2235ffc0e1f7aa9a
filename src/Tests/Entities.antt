-- ===== src/Tests/Entities.antt =====
-- The theorems about the two aggregates, applied to small histories.
use banking_transaction_syst.Prelude.{◌≡◌, refl, false, some, List, [], ◌∷◌, arith}
use banking_transaction_syst.Domain.Enums.CurrencyEnum.{eur}
use banking_transaction_syst.Domain.Enums.TransactionStatusEnum.{
  pending, processing, failed, can_fail,
}
use banking_transaction_syst.Domain.Enums.TransactionTypeEnum.{transfer}
use banking_transaction_syst.Domain.Money.{is_zero}
use banking_transaction_syst.Domain.Money.Rounding.{IsMoney}
use banking_transaction_syst.Domain.Exceptions.{ok, err}
use banking_transaction_syst.Domain.Base.{Draw, new_root}
use banking_transaction_syst.Domain.Account.{Account, create}
use banking_transaction_syst.Domain.Account.Lifecycle.{IsSound, history-IsSound, create_lem}
use banking_transaction_syst.Domain.Account.Lifecycle as Calls
use banking_transaction_syst.Domain.Account.Replay.{Replays, history-Replays}
use banking_transaction_syst.Domain.Transaction.{
  Transaction, initiate, fail, failing, mark_rolled_back, rolled_back, needs_rollback,
}
use banking_transaction_syst.Domain.Transaction.Lifecycle.{
  Call, processes, completes, fails, apply, abort, IsConsistent, Step-apply,
}
use banking_transaction_syst.Domain.Transaction.Histories.{
  history, Reaches, initiate_lem, history-IsConsistent, history-Reaches, mark_rolled_back_unguarded,
}
use banking_transaction_syst.Tests.Data.{draw, euros, alice, pending_tx}

alice-IsSound : IsSound alice
alice-IsSound = record {
  money = record { not_negative = ground arith; in_context = omega arith };
  emptied = λ h. ground arith;
}

price_valid : IsMoney (euros 2550)
price_valid = record { not_negative = ground arith; in_context = omega arith }

-- A debit, a freeze, a debit that is refused, an unfreeze and a credit.
abbrev calls : List (Draw × Calls.Call)
calls =
    (draw 1, Calls.debits (euros 2550) 7)
    ∷ (draw 2, Calls.freezes "review")
    ∷ (draw 3, Calls.debits (euros 2550) 8)
    ∷ (draw 4, Calls.unfreezes)
    ∷ (draw 5, Calls.credits (euros 2550) 9)
    ∷ []

history-Replays_example : Replays alice (Calls.history calls alice)
history-Replays_example =
    history-Replays calls alice alice-IsSound
      (price_valid, (tt, (price_valid, (tt, (price_valid, tt)))))

history-IsSound_example : IsSound (Calls.history calls alice)
history-IsSound_example =
    history-IsSound calls alice alice-IsSound
      (price_valid, (tt, (price_valid, (tt, (price_valid, tt)))))

opened : Account
unfolding create new_root
opened = elim (create (draw 0) 9 eur (some (euros 2550))) [ ok a ↦ a | err _ ↦ alice ]

pending-IsConsistent : IsConsistent pending_tx
unfolding initiate is_zero
pending-IsConsistent = ((initiate_lem (draw 0) 1 2 (euros 2550) "k0" transfer).2 pending_tx refl).0

-- A completion that is refused, the start, a failure, and a second start that is refused.
abbrev steps : List (Draw × Call)
steps =
    (draw 1, completes) ∷ (draw 2, processes) ∷ (draw 3, fails [] "no") ∷ (draw 4, processes) ∷ []

history-IsConsistent_example : IsConsistent (history steps pending_tx)
history-IsConsistent_example = history-IsConsistent steps pending_tx pending-IsConsistent

history-Reaches_example : Reaches pending (history steps pending_tx).status
history-Reaches_example = history-Reaches steps pending_tx

abbrev failed_tx : Transaction
failed_tx = failing (draw 6) [] "no" pending_tx

abbrev running_tx : Transaction
running_tx = record pending_tx { status = processing }

Step-apply_example :
    (c : Call) × (u : Transaction) × (apply (draw 1) c running_tx ≡ ok u) × (u.status ≡ failed)
Step-apply_example = Step-apply (draw 1) abort running_tx refl

mark_rolled_back_unguarded_example :
    (needs_rollback failed_tx ≡ false)
    × (mark_rolled_back (draw 7) failed_tx ≡ ok (rolled_back (draw 7) failed_tx))
    × (mark_rolled_back (draw 8) (rolled_back (draw 7) failed_tx)
        ≡ ok (rolled_back (draw 8) (rolled_back (draw 7) failed_tx)))
unfolding fail can_fail
mark_rolled_back_unguarded_example =
    mark_rolled_back_unguarded (draw 6) (draw 7) (draw 8) [] "no" pending_tx failed_tx refl refl
