-- ===== src/Adapters/InMemory/Completion.antt =====
-- A request for a transfer after its lookup, over the in-memory adapters, that meets no obstacle.
use banking_transaction_syst.Prelude.{
  ℕ, suc, ◌≡◌, ◌≢◌, refl, ap, false, some, map, List, [], ◌∷◌, ◌++◌, arith,
}
use banking_transaction_syst.Prelude.Tests.{nat_eq, string_eq, nat_beq_iff}
use banking_transaction_syst.Prelude.Dict.{lookup, lookup-insert}
use banking_transaction_syst.Domain.Enums.CurrencyEnum.{Currency}
use banking_transaction_syst.Domain.Enums.AccountStatusEnum.{active}
use banking_transaction_syst.Domain.Enums.TransactionStatusEnum.{completed}
use banking_transaction_syst.Domain.Enums.TransactionTypeEnum.{transfer}
use banking_transaction_syst.Domain.Amount.{Money}
use banking_transaction_syst.Domain.Money.{decimal, money, add, sub, is_zero}
use banking_transaction_syst.Domain.Exceptions.{Result, ok}
use banking_transaction_syst.Domain.Events.{DomainEvent, event_type}
use banking_transaction_syst.Domain.Base.{new_root}
use banking_transaction_syst.Domain.Account.{Account, debited, credited}
use banking_transaction_syst.Domain.Account.Lifecycle.{debit_active, credit_active}
use banking_transaction_syst.Domain.Transaction.{Transaction, initiated, processed, finished}
use banking_transaction_syst.Domain.Transaction.Histories.{initiate_ok}
use banking_transaction_syst.Application.Runtime.{Env}
use banking_transaction_syst.Application.Dtos.{TransferCommand, TransactionDto, transaction_dto}
use banking_transaction_syst.Application.TransferService.Execution
use banking_transaction_syst.Application.TransferService.Publication.{cleared_tx}
use banking_transaction_syst.Application.TransferService.{parse_currency, lock_keys}
use banking_transaction_syst.Adapters.InMemory.{MemWorld, Held, holds, acquire_keys}
use banking_transaction_syst.Adapters.InMemory.Locks.{acquire_pair}
use banking_transaction_syst.Adapters.InMemory.Success
use banking_transaction_syst.Adapters.InMemory.Success.{service, service_new, after_lookup}

-- The answer of a transfer and the process after it, against the process before it.
pub record Transferred (cmd : TransferCommand) (s r : ℕ) (x y : Money) (w w' : MemWorld)
    (answer : Result TransactionDto) : Type 0 where
  pub answered : answer ≡ ok (transaction_dto (w'.transactions w.next))
  pub status : (w'.transactions w.next).status ≡ completed
  pub sender : (w'.accounts s).balance ≡ x
  pub receiver : (w'.accounts r).balance ≡ y
  pub others : (j : ℕ) → j ≢ s → j ≢ r → w'.accounts j ≡ w.accounts j
  pub kept : (j : ℕ) → j ≢ w.next → w'.transactions j ≡ w.transactions j
  pub by_id : lookup (w'.transactions w.next).id w'.store.transactions ≡ some w.next
  pub by_key : lookup cmd.idempotency_key w'.store.by_idempotency ≡ some (w'.transactions w.next).id
  pub sender_active : (w'.accounts s).status ≡ active
  pub receiver_active : (w'.accounts r).status ≡ active
  pub index : w'.store.accounts ≡ w.store.accounts
  pub unlocked : w'.locks ≡ w.locks

module _ (env : Env) (cmd : TransferCommand) (c : Currency) (m x y : Money) (w : MemWorld) (s r : ℕ)
    (known : parse_currency cmd.currency ≡ ok c) (rounded : money (decimal cmd.amount) c ≡ ok m)
    (positive : is_zero m ≡ false) (distinct : cmd.from_account_id ≢ cmd.to_account_id)
    (sender_free : holds cmd.from_account_id w.locks ≡ false)
    (receiver_free : holds cmd.to_account_id w.locks ≡ false)
    (sender_known : lookup cmd.from_account_id w.store.accounts ≡ some s)
    (receiver_known : lookup cmd.to_account_id w.store.accounts ≡ some r) (other : s ≢ r)
    (sender_active : (w.accounts s).status ≡ active)
    (receiver_active : (w.accounts r).status ≡ active)
    (covered : sub (w.accounts s).balance m ≡ ok x)
    (summed : add (w.accounts r).balance m ≡ ok y) where
  abbrev t : Transaction
  t =
      initiated (env.supply w.draws) cmd.from_account_id cmd.to_account_id m cmd.idempotency_key
        transfer

  made : Execution.begin cmd m (env.supply w.draws) ≡ ok t
  made =
      initiate_ok (env.supply w.draws) cmd.from_account_id cmd.to_account_id m cmd.idempotency_key
        transfer positive distinct

  abbrev a : Account
  a = debited (env.supply (suc (suc w.draws))) m t.id x (w.accounts s)

  abbrev b : Account
  b = credited (env.supply (suc (suc (suc w.draws)))) m t.id y (w.accounts r)

  module _ (held : Held)
      (free : acquire_keys env.uuid_text (lock_keys cmd.from_account_id cmd.to_account_id) w.locks
        ≡ (ok tt, lock_keys cmd.from_account_id cmd.to_account_id, held)) where
    abbrev after : MemWorld
    after =
        Success.final env cmd c m w s r (lock_keys cmd.from_account_id cmd.to_account_id) held known
          rounded free sender_known receiver_known t a b made other
          (debit_active (env.supply (suc (suc w.draws))) m t.id (w.accounts s) x sender_active
            covered)
          (credit_active (env.supply (suc (suc (suc w.draws)))) m t.id (w.accounts r) y
            receiver_active summed)

    concluded : after_lookup env cmd w ≡ (ok (transaction_dto (after.transactions w.next)), after)
    concluded =
        Success.concluded env cmd c m w s r (lock_keys cmd.from_account_id cmd.to_account_id) held
          known rounded free sender_known receiver_known t a b made other
          (debit_active (env.supply (suc (suc w.draws))) m t.id (w.accounts s) x sender_active
            covered)
          (credit_active (env.supply (suc (suc (suc w.draws)))) m t.id (w.accounts r) y
            receiver_active summed)

    ended :
        (after.transactions w.next)
        ≡ cleared_tx (
            finished
              (env.supply (suc (suc (suc (suc w.draws)))))
              (processed (env.supply (suc w.draws)) t))
    ended = ground (arith, nat_beq_iff w.next w.next)

    reported : Transferred cmd s r x y w after (ok (transaction_dto (after.transactions w.next)))
    reported = record {
      answered = refl;
      status = ap (λ (u : Transaction). u.status) ended;
      sender = ground (arith, nat_beq_iff r s, nat_beq_iff s s);
      receiver = ground (arith, nat_beq_iff r r);
      others = λ j ns nr. ground (arith, nat_beq_iff s j, nat_beq_iff r j);
      kept = λ j h. ground (arith, nat_beq_iff w.next j);
      by_id = rw ended (rw lookup-insert (ground (arith, nat_beq_iff t.id t.id)));
      by_key = rw ended (
          rw lookup-insert
            (ground (arith, string_eq.beq_iff cmd.idempotency_key cmd.idempotency_key)));
      sender_active = ground (arith, nat_beq_iff r s, nat_beq_iff s s, sender_active);
      receiver_active = ground (arith, nat_beq_iff r r, receiver_active);
      index = refl;
      unlocked = refl;
    }

  -- Whatever the lookup of the key found: the steps after it make the transfer.
  pub after_lookup_transfers :
      let (answer, w') = after_lookup env cmd w in Transferred cmd s r x y w w' answer
  after_lookup_transfers =
      let (held, free) =
        acquire_pair env.uuid_text cmd.from_account_id cmd.to_account_id w.locks distinct
          sender_free receiver_free in
      rw (concluded held free) (reported held free)

  pub after_lookup_publishes :
      (w.accounts s).domain_events ≡ []
      → (w.accounts r).domain_events ≡ []
      → let (answer, w') = after_lookup env cmd w in
        (es : List DomainEvent) × (w'.published ≡ w.published ++ es)
        × (map event_type es
            ≡ "BalanceDebited" ∷ "BalanceCredited" ∷ "TransactionInitiated"
              ∷ "TransactionProcessing" ∷ "TransactionCompleted" ∷ [])
        × ((w'.accounts s).domain_events ≡ [])
        × ((w'.accounts r).domain_events ≡ [])
        × ((w'.transactions w.next).domain_events ≡ [])
  unfolding event_type new_root
  after_lookup_publishes hs hr =
      let (held, free) =
        acquire_pair env.uuid_text cmd.from_account_id cmd.to_account_id w.locks distinct
          sender_free receiver_free in
      rw (concluded held free) (
        _,
        refl,
        rw (hs, hr) refl,
        ground (arith, nat_beq_iff r s, nat_beq_iff s s),
        ground (arith, nat_beq_iff r r),
        ap (λ (u : Transaction). u.domain_events) (ended held free),
      )
