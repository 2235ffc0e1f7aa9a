-- ===== src/Domain/Account/Replay.antt =====
-- A consumer that reads only the events of an account knows its balance and its status.
use banking_transaction_syst.Prelude.{◌≡◌, refl, inl, inr, List, [], ◌∷◌, ◌++◌, arith}
use banking_transaction_syst.Prelude.Lists.{append-nil, append_assoc, foldl, foldl-append}
use banking_transaction_syst.Prelude.Tests.{Bool-cases}
use banking_transaction_syst.Prelude.Int.{ℤ, ◌+ℤ◌, ◌-ℤ◌}
use banking_transaction_syst.Domain.Enums.AccountStatusEnum.{
  AccountStatus, active, frozen, closed, same,
}
use banking_transaction_syst.Domain.Money.Arithmetic.{sub_ok, add_ok}
use banking_transaction_syst.Domain.Exceptions.{ok, Result-cases}
use banking_transaction_syst.Domain.Events.{
  DomainEvent, EventBody, of_account, of_transaction, AccountEvent, account_created,
  balance_debited, balance_credited, account_frozen, account_unfrozen, account_closed,
}
use banking_transaction_syst.Domain.Base.{Draw}
use banking_transaction_syst.Domain.Account.{Account, code, freeze, unfreeze, close}
use banking_transaction_syst.Domain.Account.Lifecycle.{
  Call, debits, credits, freezes, unfreezes, closes, apply, IsCall, AreCalls, IsSound, debit_ok,
  credit_ok, history, apply-IsSound,
}

-- The view of an account that a consumer of its events keeps.
pub record Ledger : Type 0 where
  pub balance : ℤ
  pub status : AccountStatus

abbrev pub view : Account → Ledger
view a = record { balance = a.balance.amount; status = a.status }

-- A consumer adds and takes the amounts itself: it does not read `balance_after`.
abbrev pub consume_account : Ledger → AccountEvent → Ledger
consume_account l (account_created _ _ _ opening) = record { balance = opening; status = active }
consume_account l (balance_debited _ _ amount _ _) = record l { balance = l.balance -ℤ amount }
consume_account l (balance_credited _ _ amount _ _) = record l { balance = l.balance +ℤ amount }
consume_account l (account_frozen _ _ _) = record l { status = frozen }
consume_account l (account_unfrozen _ _) = record l { status = active }
consume_account l (account_closed _ _) = record l { status = closed }

abbrev pub consume_body : Ledger → EventBody → Ledger
consume_body l (of_account e) = consume_account l e
consume_body l (of_transaction _) = l

abbrev pub consume : Ledger → DomainEvent → Ledger
consume l e = consume_body l e.body

-- The events that a call adds bring the view from the old account to the new one.
abbrev pub Replays : Account → Account → Type 0
Replays a b =
    (es : List DomainEvent) × (b.domain_events ≡ a.domain_events ++ es)
    × (foldl consume (view a) es ≡ view b)
    × (b.id ≡ a.id)
    × (b.owner_id ≡ a.owner_id)

abbrev event : Draw → AccountEvent → List DomainEvent
event d e = record { event_id = d.event_id; occurred_at = d.occurred_at; body = of_account e } ∷ []

pub apply-Replays :
    (d : Draw) (c : Call) (a b : Account) → IsSound a → IsCall c → apply d c a ≡ ok b → Replays a b
unfolding apply freeze unfreeze close
apply-Replays d (debits m tx) a b s hm h =
    let (rest, e, st, eq) = debit_ok d m tx a b h in
    (
      event d (balance_debited a.id tx m.amount (code m) rest.amount),
      ground arith,
      ground (arith, sub_ok a.balance m rest s.money hm e),
      ground arith,
      ground arith,
    )
apply-Replays d (credits m tx) a b s hm h =
    let (sum, e, st, eq) = credit_ok d m tx a b h in
    (
      event d (balance_credited a.id tx m.amount (code m) sum.amount),
      ground arith,
      ground (arith, add_ok a.balance m sum s.money hm e),
      ground arith,
      ground arith,
    )
apply-Replays d (freezes reason) a b s hm h = elim (Bool-cases (same a.status frozen)) [
  | inl idle ↦
      ([], ground (arith, append-nil a.domain_events), ground arith, ground arith, ground arith)
  | inr new ↦ (
    event d (account_frozen a.id a.owner_id reason),
    ground arith,
    ground arith,
    ground arith,
    ground arith,
  )
]
apply-Replays d unfreezes a b s hm h = elim (Bool-cases (same a.status active)) [
  | inl idle ↦
      ([], ground (arith, append-nil a.domain_events), ground arith, ground arith, ground arith)
  | inr new ↦ (
    event d (account_unfrozen a.id a.owner_id),
    ground arith,
    ground arith,
    ground arith,
    ground arith,
  )
]
apply-Replays d closes a b s hm h = (
  event d (account_closed a.id a.owner_id),
  ground arith,
  ground arith,
  ground arith,
  ground arith,
)

Replays-trans : (a b c : Account) → Replays a b → Replays b c → Replays a c
Replays-trans a b c p q = (
  p.0 ++ q.0,
  ground (arith, append_assoc a.domain_events p.0 q.0),
  rw (foldl-append, p.2) q.2,
  ground arith,
  ground arith,
)

-- The events of any history, read in order, give the balance and the status at its end.
pub history-Replays :
    (calls : List (Draw × Call)) (a : Account)
    → IsSound a
    → AreCalls calls
    → Replays a (history calls a)
unfolding history
history-Replays [] a s hs = ([], ground (arith, append-nil a.domain_events), refl, refl, refl)
history-Replays ((d, c) ∷ calls) a s hs = elim (Result-cases (apply d c a)) [
  | inl (b, e) ↦
      rw (e, history)
        (Replays-trans a b (history calls b) (apply-Replays d c a b s hs.0 e)
          (history-Replays calls b (apply-IsSound d c a b s hs.0 e) hs.1))
  | inr (x, e) ↦ rw (e, history) (history-Replays calls a s hs.1)
]
