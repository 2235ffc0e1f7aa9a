-- ===== src/Domain/Events/Payload.antt =====
-- `DomainEvent.to_dict` (src/domain/events/base.py): the fields in the order of the dataclasses,
-- with UUIDs and times as texts, and the type of the event last.
use banking_transaction_syst.Prelude.{ℕ, String, Bool, List, [], ◌∷◌, ◌++◌}
use banking_transaction_syst.Prelude.Int.{ℤ}
use banking_transaction_syst.Prelude.Dict.{Dict}
use banking_transaction_syst.Domain.Events.{
  AccountEvent, account_created, balance_debited, balance_credited, account_frozen,
  account_unfrozen, account_closed, TransactionEvent, transaction_initiated, transaction_processing,
  transaction_completed, transaction_failed, transaction_rolled_back,
  duplicate_transaction_detected, of_account, of_transaction, DomainEvent, event_type,
}

-- A value of the dictionary. `uuid_text` is `str` of a UUID, `isoformat` the text of a time,
-- `amount_text` `str` of an amount in hundredths, and `no_metadata` the empty dictionary.
pub data Field : Type 0 where
  uuid_text isoformat : ℕ → Field
  text : String → Field
  code_text : List ℕ → Field
  amount_text : ℤ → Field
  flag : Bool → Field
  no_metadata : Field

account_fields : AccountEvent → Dict String Field
account_fields (account_created a o c b) =
    ("account_id", uuid_text a)
    ∷ ("owner_id", uuid_text o)
    ∷ ("currency", text c)
    ∷ ("initial_balance", amount_text b)
    ∷ []
account_fields (balance_debited a t m c b) =
    ("account_id", uuid_text a)
    ∷ ("transaction_id", uuid_text t)
    ∷ ("amount", amount_text m)
    ∷ ("currency", text c)
    ∷ ("balance_after", amount_text b)
    ∷ []
account_fields (balance_credited a t m c b) =
    ("account_id", uuid_text a)
    ∷ ("transaction_id", uuid_text t)
    ∷ ("amount", amount_text m)
    ∷ ("currency", text c)
    ∷ ("balance_after", amount_text b)
    ∷ []
account_fields (account_frozen a o r) =
    ("account_id", uuid_text a) ∷ ("owner_id", uuid_text o) ∷ ("reason", text r) ∷ []
account_fields (account_unfrozen a o) = ("account_id", uuid_text a) ∷ ("owner_id", uuid_text o) ∷ []
account_fields (account_closed a o) = ("account_id", uuid_text a) ∷ ("owner_id", uuid_text o) ∷ []

-- The fields that the transfer's events begin with.
abbrev parties : ℕ → ℕ → ℕ → ℤ → String → Dict String Field
parties t f o m c =
    ("transaction_id", uuid_text t)
    ∷ ("from_account_id", uuid_text f)
    ∷ ("to_account_id", uuid_text o)
    ∷ ("amount", amount_text m)
    ∷ ("currency", text c)
    ∷ []

transaction_fields : TransactionEvent → Dict String Field
transaction_fields (transaction_initiated t f o m c k) =
    parties t f o m c ++ (("idempotency_key", text k) ∷ [])
transaction_fields (transaction_processing t f o m c) = parties t f o m c
transaction_fields (transaction_completed t f o m c) = parties t f o m c
transaction_fields (transaction_failed t f o m c code reason rollback) =
    parties t f o m c
    ++ (("failure_code", code_text code)
        ∷ ("failure_reason", text reason)
        ∷ ("rollback_required", flag rollback)
        ∷ [])
transaction_fields (transaction_rolled_back t f m c) =
    ("transaction_id", uuid_text t)
    ∷ ("from_account_id", uuid_text f)
    ∷ ("amount", amount_text m)
    ∷ ("currency", text c)
    ∷ []
transaction_fields (duplicate_transaction_detected k t f) =
    ("idempotency_key", text k)
    ∷ ("original_transaction_id", uuid_text t)
    ∷ ("from_account_id", uuid_text f)
    ∷ []

unfoldable pub to_dict : DomainEvent → Dict String Field
unfolding account_fields transaction_fields
to_dict e =
    ("event_id", uuid_text e.event_id)
    ∷ ("occurred_at", isoformat e.occurred_at)
    ∷ ("metadata", no_metadata)
    ∷ (elim e.body [ of_account a ↦ account_fields a | of_transaction t ↦ transaction_fields t ]
        ++ (("event_type", text (event_type e)) ∷ []))
