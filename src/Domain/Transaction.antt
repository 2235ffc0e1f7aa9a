-- ===== src/Domain/Transaction.antt =====
-- The aggregate `Transaction` (src/domain/entities/transaction.py), method by method. As in an
-- account, every guard stands before the first assignment. A failure code is a list of code points.
pub mod Lifecycle
pub mod Histories
pub mod Identity
use banking_transaction_syst.Prelude.{
  ℕ, String, Bool, true, false, not, ◌&&◌, Option, none, some, List, [],
}
use banking_transaction_syst.Prelude.Tests.{◌==◌, nat_eq}
use banking_transaction_syst.Domain.Enums.CurrencyEnum.{Currency}
use banking_transaction_syst.Domain.Enums.CurrencyEnum
use banking_transaction_syst.Domain.Enums.TransactionStatusEnum
use banking_transaction_syst.Domain.Enums.TransactionStatusEnum.{
  TransactionStatus, pending, processing, completed, failed, can_process, can_complete, can_fail,
  same,
}
use banking_transaction_syst.Domain.Enums.TransactionTypeEnum.{TransactionType}
use banking_transaction_syst.Domain.Amount.{Money}
use banking_transaction_syst.Domain.Money.{is_zero}
use banking_transaction_syst.Domain.Exceptions.{Result, ok, err, transaction, ◌>>=◌, ◌>>◌, raise_if}
use banking_transaction_syst.Domain.Exceptions.Classes.{
  invalid_transfer_amount, same_account_transfer, already_processing, already_completed,
  not_failable, rollback_error,
}
use banking_transaction_syst.Domain.Events.{
  EventBody, of_transaction, transaction_initiated, transaction_processing, transaction_completed,
  transaction_failed, transaction_rolled_back,
}
use banking_transaction_syst.Domain.Base.{Draw, Root, new_root, record_event}

pub record Transaction : Type 0 where
  pub root : Root
  pub open root use *
  pub from_account_id : ℕ
  pub to_account_id : ℕ
  pub amount : Money
  pub transaction_type : TransactionType
  pub status : TransactionStatus
  pub idempotency_key : String
  pub failure_code : Option (List ℕ)
  pub failure_reason : Option String
  pub completed_at : Option ℕ
  pub rollback_required : Bool

abbrev code : Money → String
code m = CurrencyEnum.value m.currency

-- `reconstitute`, with an empty event list.
unfoldable pub reconstitute :
    (id from_id to_id : ℕ) (amount : Money) (type : TransactionType) (status : TransactionStatus)
    (key : String) (created_at updated_at : ℕ) (failure_code : Option (List ℕ))
    (failure_reason : Option String) (completed_at : Option ℕ) (rollback_required : Bool)
    → Transaction
reconstitute id from_id to_id amount type status key created updated failure reason ended rollback =
    record {
      root = record { id = id; created_at = created; updated_at = updated; domain_events = [] };
      from_account_id = from_id;
      to_account_id = to_id;
      amount = amount;
      transaction_type = type;
      status = status;
      idempotency_key = key;
      failure_code = failure;
      failure_reason = reason;
      completed_at = ended;
      rollback_required = rollback;
    }

-- The record with the defaults of the class. The `id` that the constructor draws is replaced by
-- `new_transaction_id()`, which is `d.uuid` here.
abbrev pub initiated : Draw → ℕ → ℕ → Money → String → TransactionType → Transaction
initiated d from_id to_id amount key type = record {
  root =
      record_event d
        (of_transaction
          (transaction_initiated d.uuid from_id to_id amount.amount (code amount) key))
        (new_root d);
  from_account_id = from_id;
  to_account_id = to_id;
  amount = amount;
  transaction_type = type;
  status = pending;
  idempotency_key = key;
  failure_code = none;
  failure_reason = none;
  completed_at = none;
  rollback_required = false;
}

unfoldable pub initiate : Draw → ℕ → ℕ → Money → String → TransactionType → Result Transaction
initiate d from_id to_id amount key type = do
  raise_if (is_zero amount) (transaction (invalid_transfer_amount amount))
  raise_if (from_id == to_id) (transaction (same_account_transfer from_id))
  ok (initiated d from_id to_id amount key type)

-- `updated_at` and the event, which every transition ends with.
abbrev touch : Draw → EventBody → Root → Root
touch d body r = record_event d body (record r { updated_at = d.now })

-- The assignments of `mark_processing`.
abbrev pub processed : Draw → Transaction → Transaction
processed d t = record t {
  status = processing;
  root =
      touch d
        (of_transaction (
          transaction_processing t.id t.from_account_id t.to_account_id t.amount.amount
            (code t.amount)))
        t.root;
}

unfoldable pub mark_processing : Draw → Transaction → Result Transaction
mark_processing d t = do
  raise_if (not (can_process t.status))
      (transaction (already_processing t.id (TransactionStatusEnum.value t.status)))
  ok (processed d t)

-- The assignments of `complete`.
abbrev pub finished : Draw → Transaction → Transaction
finished d t = record t {
  status = completed;
  completed_at = some d.now;
  root =
      touch d
        (of_transaction (
          transaction_completed t.id t.from_account_id t.to_account_id t.amount.amount
            (code t.amount)))
        t.root;
}

unfoldable pub complete : Draw → Transaction → Result Transaction
complete d t = do
  raise_if (not (can_complete t.status))
      (transaction (already_completed t.id (TransactionStatusEnum.value t.status)))
  ok (finished d t)

-- The assignments of `fail`.
abbrev pub failing : Draw → List ℕ → String → Transaction → Transaction
failing d failure_code failure_reason t = record t {
  rollback_required = same t.status processing;
  status = failed;
  failure_code = some failure_code;
  failure_reason = some failure_reason;
  root =
      touch d
        (of_transaction (
          transaction_failed t.id t.from_account_id t.to_account_id t.amount.amount (code t.amount)
            failure_code failure_reason (same t.status processing)))
        t.root;
}

unfoldable pub fail : Draw → List ℕ → String → Transaction → Result Transaction
fail d failure_code failure_reason t = do
  raise_if (not (can_fail t.status))
      (transaction (not_failable t.id (TransactionStatusEnum.value t.status)))
  ok (failing d failure_code failure_reason t)

-- The assignments of `mark_rolled_back`.
abbrev pub rolled_back : Draw → Transaction → Transaction
rolled_back d t = record t {
  root =
      touch d
        (of_transaction
          (transaction_rolled_back t.id t.from_account_id t.amount.amount (code t.amount)))
        t.root;
}

unfoldable pub mark_rolled_back : Draw → Transaction → Result Transaction
mark_rolled_back d t = do
  raise_if (not (same t.status failed))
      (transaction (rollback_error t.id (TransactionStatusEnum.value t.status)))
  ok (rolled_back d t)

unfoldable pub is_terminal : Transaction → Bool
is_terminal t = TransactionStatusEnum.is_terminal t.status

unfoldable pub needs_rollback : Transaction → Bool
needs_rollback t = same t.status failed && t.rollback_required
