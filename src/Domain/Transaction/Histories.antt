-- ===== src/Domain/Transaction/Histories.antt =====
-- A transaction from `initiate` on, through any calls of its methods.
use banking_transaction_syst.Prelude.{
  ℕ, String, ◌≡◌, ◌≢◌, refl, inl, inr, true, false, List, [], ◌∷◌, ◌∙◌, arith,
}
use banking_transaction_syst.Prelude.Tests.{nat_eq, nat_beq_iff}
use banking_transaction_syst.Domain.Enums.TransactionStatusEnum
use banking_transaction_syst.Domain.Enums.TransactionStatusEnum.{
  TransactionStatus, pending, processing, completed, failed, same, can_fail,
}
use banking_transaction_syst.Domain.Enums.TransactionTypeEnum.{TransactionType}
use banking_transaction_syst.Domain.Amount.{Money}
use banking_transaction_syst.Domain.Money.{is_zero}
use banking_transaction_syst.Domain.Exceptions.{ok, err, Result-cases, transaction}
use banking_transaction_syst.Domain.Exceptions.Classes.{
  invalid_transfer_amount, same_account_transfer,
}
use banking_transaction_syst.Domain.Base.{Draw, new_root}
use banking_transaction_syst.Domain.Transaction.{
  Transaction, initiated, rolled_back, initiate, fail, mark_rolled_back, is_terminal,
  needs_rollback,
}
use banking_transaction_syst.Domain.Transaction.Lifecycle.{
  Call, apply, Step, start, finish, reject, abort, roll_back, apply-Step, IsConsistent,
  apply-IsConsistent,
}

-- Calls in a row. One that raises leaves the transaction as it is.
unfoldable pub history : List (Draw × Call) → Transaction → Transaction
history [] t = t
history ((d, c) ∷ calls) t = elim (apply d c t) [ ok u ↦ history calls u | err _ ↦ history calls t ]

-- Statuses joined by steps of the lifecycle.
pub data Reaches (s : TransactionStatus) : TransactionStatus → Type 0 where
  here : Reaches s s
  next : {a b : TransactionStatus} → Reaches s a → Step a b → Reaches s b

-- `initiate` by branches, in the order of its guards.
pub initiate_lem :
    (d : Draw) (from_id to_id : ℕ) (m : Money) (key : String) (type : TransactionType)
    → (is_zero m ≡ true
        → initiate d from_id to_id m key type ≡ err (transaction (invalid_transfer_amount m)))
      × (is_zero m ≡ false
          → from_id ≡ to_id
          → initiate d from_id to_id m key type ≡ err (transaction (same_account_transfer from_id)))
      × ((t : Transaction)
          → initiate d from_id to_id m key type ≡ ok t
          → IsConsistent t × (t.status ≡ pending) × (t.id ≡ d.uuid) × (t.idempotency_key ≡ key))
unfolding initiate new_root is_terminal TransactionStatusEnum.is_terminal
initiate_lem d from_id to_id m key type = (
  λ h. ground arith,
  λ h e. ground (arith, nat_beq_iff from_id to_id),
  λ t h. ground (arith, nat_beq_iff from_id to_id),
)

pub initiate_ok :
    (d : Draw) (from_id to_id : ℕ) (m : Money) (key : String) (type : TransactionType)
    → is_zero m ≡ false
    → from_id ≢ to_id
    → initiate d from_id to_id m key type ≡ ok (initiated d from_id to_id m key type)
unfolding initiate
initiate_ok d from_id to_id m key type h e = ground (arith, nat_beq_iff from_id to_id)

-- After any calls a consistent transaction is consistent.
pub history-IsConsistent :
    (calls : List (Draw × Call)) (t : Transaction) → IsConsistent t → IsConsistent (history calls t)
unfolding history
history-IsConsistent [] t i = i
history-IsConsistent ((d, c) ∷ calls) t i = elim (Result-cases (apply d c t)) [
  | inl (u, e) ↦ rw (e, history) (history-IsConsistent calls u (apply-IsConsistent d c t u i e))
  | inr (x, e) ↦ rw (e, history) (history-IsConsistent calls t i)
]

history_from :
    (s : TransactionStatus) (calls : List (Draw × Call)) (t : Transaction)
    → Reaches s t.status
    → Reaches s (history calls t).status
unfolding history
history_from s [] t r = r
history_from s ((d, c) ∷ calls) t r = elim (Result-cases (apply d c t)) [
  | inl (u, e) ↦ rw (e, history) (history_from s calls u (next r (apply-Step d c t u e)))
  | inr (x, e) ↦ rw (e, history) (history_from s calls t r)
]

-- Any calls move the status along the documented lifecycle.
pub history-Reaches :
    (calls : List (Draw × Call)) (t : Transaction) → Reaches t.status (history calls t).status
history-Reaches calls t = history_from t.status calls t here

Step_terminal :
    {a b : TransactionStatus} → Step a b → TransactionStatusEnum.is_terminal a ≡ true → b ≡ a
unfolding TransactionStatusEnum.is_terminal
Step_terminal start h = absurd (cc h)
Step_terminal finish h = absurd (cc h)
Step_terminal reject h = absurd (cc h)
Step_terminal abort h = absurd (cc h)
Step_terminal roll_back h = refl

Reaches-terminal :
    {s b : TransactionStatus} → Reaches s b → TransactionStatusEnum.is_terminal s ≡ true → b ≡ s
Reaches-terminal here h = refl
Reaches-terminal (next r st) h = let e = Reaches-terminal r h in Step_terminal st (rw e h) ∙ e

-- A completed transaction stays completed, and a failed one failed.
terminal_stays :
    (calls : List (Draw × Call)) (t : Transaction)
    → is_terminal t ≡ true
    → (history calls t).status ≡ t.status
unfolding is_terminal
terminal_stays calls t h = Reaches-terminal (history-Reaches calls t) h

-- `mark_rolled_back` tests the status alone: it accepts a transaction that failed before any debit,
-- and it accepts it again and again.
pub mark_rolled_back_unguarded :
    (d e f : Draw) (code : List ℕ) (reason : String) (t u : Transaction)
    → t.status ≡ pending
    → fail d code reason t ≡ ok u
    → (needs_rollback u ≡ false)
      × (mark_rolled_back e u ≡ ok (rolled_back e u))
      × (mark_rolled_back f (rolled_back e u) ≡ ok (rolled_back f (rolled_back e u)))
unfolding fail mark_rolled_back needs_rollback can_fail
mark_rolled_back_unguarded d e f code reason t u h k = ground arith
