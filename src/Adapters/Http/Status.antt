-- ===== src/Adapters/Http/Status.antt =====
-- The status of an exception: src/adapters/inbound/http/exception_handlers.py.
use banking_transaction_syst.Prelude.{ℕ, ◌≡◌, ◌⊎◌, arith}
use banking_transaction_syst.Domain.Exceptions.{
  Exn, err, base, account, transaction, value_error, invalid_operation, library,
}
use banking_transaction_syst.Domain.Exceptions.Classes.{
  BaseError, resource_not_found, currency_mismatch, concurrency_conflict, business_rule_violation,
  AccountError, insufficient_funds, account_frozen, account_closed, account_not_empty,
  TransactionError, invalid_transfer_amount, same_account_transfer, already_processing,
  already_completed, not_failable, duplicate_idempotency_key, rollback_error,
}
use banking_transaction_syst.Domain.Money.Arithmetic.{sub_lem, add_lem}
use banking_transaction_syst.Domain.Base.{Draw}
use banking_transaction_syst.Domain.Account.{Account, debit, credit, freeze, unfreeze, close}
use banking_transaction_syst.Domain.Account.Lifecycle as Calls
use banking_transaction_syst.Domain.Account.Lifecycle.{
  IsSound, IsCall, debits, credits, freezes, unfreezes, closes,
}
use banking_transaction_syst.Domain.Transaction.{
  Transaction, mark_processing, complete, fail, mark_rolled_back,
}
use banking_transaction_syst.Domain.Transaction.Lifecycle as Steps
use banking_transaction_syst.Domain.Transaction.Lifecycle.{processes, completes, fails, rolls_back}

base_status : BaseError → ℕ
base_status (resource_not_found _ _) = 404
base_status (currency_mismatch _ _) = 400
base_status (concurrency_conflict _) = 409
base_status business_rule_violation = 500

account_status : AccountError → ℕ
account_status (insufficient_funds _ _) = 422
account_status (account_frozen _) = 422
account_status (account_closed _) = 422
account_status (account_not_empty _ _) = 422

transaction_status : TransactionError → ℕ
transaction_status (invalid_transfer_amount _) = 400
transaction_status (same_account_transfer _) = 400
transaction_status (already_processing _ _) = 409
transaction_status (already_completed _ _) = 422
transaction_status (not_failable _ _) = 422
transaction_status (duplicate_idempotency_key _ _) = 409
transaction_status (rollback_error _ _) = 500

-- `_STATUS_MAP.get(type(exc), 500)`, and 500 for what is no `DomainException`.
unfoldable pub status_code : Exn → ℕ
unfolding base_status account_status transaction_status
status_code (base e) = base_status e
status_code (account e) = account_status e
status_code (transaction e) = transaction_status e
status_code (value_error _) = 500
status_code invalid_operation = 500
status_code (library _ _) = 500

-- What a call on a sound account raises is answered with 400 or 422, unless the sum of a credit has
-- more than 28 digits.
account_call_status :
    (d : Draw) (c : Calls.Call) (a : Account) (e : Exn)
    → IsSound a
    → IsCall c
    → Calls.apply d c a ≡ err e
    → (status_code e ≡ 400) ⊎ ((status_code e ≡ 422) ⊎ (e ≡ invalid_operation))
unfolding Calls.apply debit credit freeze unfreeze close status_code
account_call_status d (debits m tx) a e s hm h = ground (arith, sub_lem a.balance m s.money hm)
account_call_status d (credits m tx) a e s hm h = ground (arith, add_lem a.balance m s.money hm)
account_call_status d (freezes reason) a e s hm h = ground arith
account_call_status d unfreezes a e s hm h = ground arith
account_call_status d closes a e s hm h = ground arith

-- The status of a refused transition: 409 for the start, 422 for completion and failure, and 500 for
-- a rollback, since `TransactionRollbackError` is missing from the table.
abbrev pub refused_status : Steps.Call → ℕ
refused_status processes = 409
refused_status completes = 422
refused_status (fails _ _) = 422
refused_status rolls_back = 500

-- A transition that is refused is answered with 409 if it is the start, with 422 if it is the
-- completion or the failure, and with 500 if it is the rollback.
pub transition_status :
    (d : Draw) (c : Steps.Call) (t : Transaction) (e : Exn)
    → Steps.apply d c t ≡ err e
    → status_code e ≡ refused_status c
unfolding Steps.apply mark_processing complete fail mark_rolled_back status_code
transition_status d processes t e h = ground arith
transition_status d completes t e h = ground arith
transition_status d (fails code reason) t e h = ground arith
transition_status d rolls_back t e h = ground arith
