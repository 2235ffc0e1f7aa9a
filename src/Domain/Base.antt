-- ===== src/Domain/Base.antt =====
-- src/domain/entities/base.py: what the aggregates draw from the clock and from uuid4, and the
-- event list of an aggregate root.
use banking_transaction_syst.Prelude.{ℕ, String, Bool, true, false, List, [], ◌∷◌, ◌++◌}
use banking_transaction_syst.Domain.Events.{EventBody, DomainEvent}

-- What one method call reads from outside: `uuid4()`, the first and the second `_now()`, the
-- defaults of the event's `event_id` and `occurred_at`, and the random digits of an account number.
pub record Draw : Type 0 where
  pub uuid : ℕ
  pub now : ℕ
  pub later : ℕ
  pub event_id : ℕ
  pub occurred_at : ℕ
  pub digits : String

-- `Entity` and `AggregateRoot`.
pub record Root : Type 0 where
  pub id : ℕ
  pub created_at : ℕ
  pub updated_at : ℕ
  pub domain_events : List DomainEvent

-- The constructor's defaults.
unfoldable pub new_root : Draw → Root
new_root d = record { id = d.uuid; created_at = d.now; updated_at = d.later; domain_events = [] }

-- `_record_event`
abbrev pub record_event : Draw → EventBody → Root → Root
record_event d body r = record r {
  domain_events =
      r.domain_events
      ++ (record { event_id = d.event_id; occurred_at = d.occurred_at; body = body } ∷ []);
}

-- `collect_events`: the events, and the root with an empty list.
unfoldable pub collect_events : Root → List DomainEvent × Root
collect_events r = (r.domain_events, record r { domain_events = [] })

-- `len(self._domain_events) > 0`
unfoldable pub has_pending_events : Root → Bool
has_pending_events r = elim r.domain_events [ [] ↦ false | _ ∷ _ ↦ true ]
