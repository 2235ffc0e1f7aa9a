-- ===== src/Domain/Events.antt =====
-- src/domain/events: an event is its envelope, `event_id` and `occurred_at`, and the fields of its
-- class. Times are numbers on the scale of the clock. `metadata` is always empty and left out.
pub mod Payload
use banking_transaction_syst.Prelude.{ℕ, String, Bool, List}
use banking_transaction_syst.Prelude.Int.{ℤ}

pub data AccountEvent : Type 0 where
  account_created :
      (account_id owner_id : ℕ) (currency : String) (initial_balance : ℤ) → AccountEvent
  balance_debited balance_credited :
      (account_id transaction_id : ℕ) (amount : ℤ) (currency : String) (balance_after : ℤ)
      → AccountEvent
  account_frozen : (account_id owner_id : ℕ) (reason : String) → AccountEvent
  account_unfrozen account_closed : (account_id owner_id : ℕ) → AccountEvent

pub data TransactionEvent : Type 0 where
  transaction_initiated :
      (transaction_id from_account_id to_account_id : ℕ) (amount : ℤ)
      (currency idempotency_key : String)
      → TransactionEvent
  transaction_processing transaction_completed :
      (transaction_id from_account_id to_account_id : ℕ) (amount : ℤ) (currency : String)
      → TransactionEvent
  transaction_failed :
      (transaction_id from_account_id to_account_id : ℕ) (amount : ℤ) (currency : String)
      (failure_code : List ℕ) (failure_reason : String) (rollback_required : Bool)
      → TransactionEvent
  transaction_rolled_back :
      (transaction_id from_account_id : ℕ) (amount : ℤ) (currency : String) → TransactionEvent
  duplicate_transaction_detected :
      (idempotency_key : String) (original_transaction_id from_account_id : ℕ) → TransactionEvent

pub data EventBody : Type 0 where
  of_account : AccountEvent → EventBody
  of_transaction : TransactionEvent → EventBody

pub record DomainEvent : Type 0 where
  pub event_id : ℕ
  pub occurred_at : ℕ
  pub body : EventBody

account_event_type : AccountEvent → String
account_event_type (account_created _ _ _ _) = "AccountCreated"
account_event_type (balance_debited _ _ _ _ _) = "BalanceDebited"
account_event_type (balance_credited _ _ _ _ _) = "BalanceCredited"
account_event_type (account_frozen _ _ _) = "AccountFrozen"
account_event_type (account_unfrozen _ _) = "AccountUnfrozen"
account_event_type (account_closed _ _) = "AccountClosed"

transaction_event_type : TransactionEvent → String
transaction_event_type (transaction_initiated _ _ _ _ _ _) = "TransactionInitiated"
transaction_event_type (transaction_processing _ _ _ _ _) = "TransactionProcessing"
transaction_event_type (transaction_completed _ _ _ _ _) = "TransactionCompleted"
transaction_event_type (transaction_failed _ _ _ _ _ _ _ _) = "TransactionFailed"
transaction_event_type (transaction_rolled_back _ _ _ _) = "TransactionRolledBack"
transaction_event_type (duplicate_transaction_detected _ _ _) = "DuplicateTransactionDetected"

-- `event_type`: the name of the class.
unfoldable pub event_type : DomainEvent → String
unfolding account_event_type transaction_event_type
event_type e = elim e.body [
  | of_account a ↦ account_event_type a
  | of_transaction t ↦ transaction_event_type t
]
