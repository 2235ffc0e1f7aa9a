-- ===== src/Domain/Transaction/Lifecycle.antt =====
-- The life of a transaction: which transitions its methods make, and what holds after any calls.
use banking_transaction_syst.Prelude.{
  ℕ, ◌+◌, String, ◌≡◌, refl, ◌≢◌, inl, inr, Bool, true, false, List, [], ◌∷◌, ◌++◌, Option, some,
  none, arith,
}
use banking_transaction_syst.Prelude.Tests.{Bool-cases, if◌then◌else◌}
use banking_transaction_syst.Domain.Enums.TransactionStatusEnum.{
  TransactionStatus, pending, processing, completed, failed, same, is_terminal, can_process,
  can_complete, can_fail,
}
use banking_transaction_syst.Domain.Money.{is_zero}
use banking_transaction_syst.Domain.Exceptions.{Result, ok}
use banking_transaction_syst.Domain.Events.{
  DomainEvent, EventBody, of_transaction, transaction_completed, transaction_failed,
}
use banking_transaction_syst.Domain.Base.{Draw}
use banking_transaction_syst.Domain.Transaction.{
  Transaction, processed, finished, failing, rolled_back, initiate, mark_processing, complete, fail,
  mark_rolled_back,
}
use banking_transaction_syst.Domain.Transaction as Tx

-- A call of a method with its arguments.
pub data Call : Type 0 where
  processes completes rolls_back : Call
  fails : List ℕ → String → Call

unfoldable pub apply : Draw → Call → Transaction → Result Transaction
apply d processes = mark_processing d
apply d completes = complete d
apply d (fails code reason) = fail d code reason
apply d rolls_back = mark_rolled_back d

-- The lifecycle that the class documents, with the record of a rollback as a step of its own.
pub data Step : TransactionStatus → TransactionStatus → Type 0 where
  start : Step pending processing
  finish : Step processing completed
  reject : Step pending failed
  abort : Step processing failed
  roll_back : Step failed failed

Step_at :
    {a b : TransactionStatus} (c d : TransactionStatus) → (c ≡ a) × (d ≡ b) → Step a b → Step c d
Step_at c d (p, q) s = rw (p, q) s

-- A call that does not raise makes a step of the lifecycle.
pub apply-Step :
    (d : Draw) (c : Call) (t u : Transaction) → apply d c t ≡ ok u → Step t.status u.status
unfolding apply mark_processing complete fail mark_rolled_back can_process can_complete can_fail
apply-Step d processes t u h = Step_at t.status u.status (ground arith) start
apply-Step d completes t u h = Step_at t.status u.status (ground arith) finish
apply-Step d rolls_back t u h = Step_at t.status u.status (ground arith) roll_back
apply-Step d (fails code reason) t u h = elim (Bool-cases (same t.status pending)) [
  | inl waiting ↦ Step_at t.status u.status (ground arith) reject
  | inr started ↦ Step_at t.status u.status (ground arith) abort
]

-- Every step of the lifecycle is made by a call, from any transaction in the first status.
pub Step-apply :
    (d : Draw) {s s' : TransactionStatus}
    → Step s s'
    → (t : Transaction) → t.status ≡ s
    → (c : Call) × (u : Transaction) × (apply d c t ≡ ok u) × (u.status ≡ s')
unfolding apply mark_processing complete fail mark_rolled_back can_process can_complete can_fail
Step-apply d start t h = (processes, processed d t, ground arith, refl)
Step-apply d finish t h = (completes, finished d t, ground arith, refl)
Step-apply d reject t h = (fails [] "", failing d [] "" t, ground arith, refl)
Step-apply d abort t h = (fails [] "", failing d [] "" t, ground arith, refl)
Step-apply d roll_back t h = (rolls_back, rolled_back d t, ground arith, h)

abbrev pub is_some {ℓ} : {A : Type ℓ} → Option A → Bool
is_some none = false
is_some (some _) = true

abbrev settles : EventBody → ℕ
settles (of_transaction (transaction_completed _ _ _ _ _)) = 1
settles (of_transaction (transaction_failed _ _ _ _ _ _ _ _)) = 1
settles _ = 0

-- How many of the events announce an end, `TransactionCompleted` or `TransactionFailed`.
abbrev pub settled : List DomainEvent → ℕ
settled [] = 0
settled (e ∷ es) = settles e.body + settled es

settled-append : (xs ys : List DomainEvent) → settled (xs ++ ys) ≡ settled xs + settled ys
settled-append [] ys = omega arith
settled-append (x ∷ xs) ys = omega (arith, settled-append xs ys)

-- The fields agree with the status, and the end was announced once, or is still to come.
pub record IsConsistent (t : Transaction) : Type 0 where
  pub completion : is_some t.completed_at ≡ same t.status completed
  pub code : is_some t.failure_code ≡ same t.status failed
  pub reason : is_some t.failure_reason ≡ same t.status failed
  pub rollback : t.rollback_required ≡ true → t.status ≡ failed
  pub announced : settled t.domain_events ≡ (if Tx.is_terminal t then 1 else 0)
  pub positive : is_zero t.amount ≡ false
  pub distinct : t.from_account_id ≢ t.to_account_id

pub apply-IsConsistent :
    (d : Draw) (c : Call) (t u : Transaction) → IsConsistent t → apply d c t ≡ ok u → IsConsistent u
unfolding apply mark_processing complete fail mark_rolled_back can_process can_complete can_fail
    Tx.is_terminal is_terminal
apply-IsConsistent d processes t u i h = grind (arith, settled-append)
apply-IsConsistent d completes t u i h = grind (arith, settled-append)
apply-IsConsistent d (fails code reason) t u i h = grind (arith, settled-append)
apply-IsConsistent d rolls_back t u i h = grind (arith, settled-append)
