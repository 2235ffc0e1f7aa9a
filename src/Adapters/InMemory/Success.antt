-- ===== src/Adapters/InMemory/Success.antt =====
-- A transfer over the in-memory adapters that meets no obstacle: what it leaves behind.
use banking_transaction_syst.Prelude.{
  ℕ, suc, ◌≡◌, ◌≢◌, ap, ◌∙◌, true, false, some, none, [], ◌∷◌, ◌++◌, arith,
}
use banking_transaction_syst.Prelude.Tests.{nat_eq, string_eq, nat_beq_iff}
use banking_transaction_syst.Prelude.Dict.{lookup, insert}
use banking_transaction_syst.Domain.Enums.CurrencyEnum.{Currency}
use banking_transaction_syst.Domain.Enums.TransactionStatusEnum.{pending}
use banking_transaction_syst.Domain.Amount.{Money}
use banking_transaction_syst.Domain.Money.{decimal, money}
use banking_transaction_syst.Domain.Exceptions.{Result, ok}
use banking_transaction_syst.Domain.Account.{Account, debit, credit}
use banking_transaction_syst.Domain.Transaction
use banking_transaction_syst.Application.Runtime.{Env, ◌>>◌, gets}
use banking_transaction_syst.Application.Dtos.{TransferCommand, TransactionDto, transaction_dto}
use banking_transaction_syst.Application.TransferService.{
  Parties, parse_currency, lock_keys, persist, initiate, perform, execute, move_money,
  publish_events,
}
use banking_transaction_syst.Application.TransferService.Moves
use banking_transaction_syst.Application.TransferService.Execution
use banking_transaction_syst.Application.TransferService.Requests
use banking_transaction_syst.Application.TransferService.Publication
use banking_transaction_syst.Application.Runtime.Steps.{bind_ok}
use banking_transaction_syst.Adapters.InMemory.{
  Held, MemWorld, account_get, transaction_get_by_idempotency_key, transaction_save, unit_of_work,
  set_committed, acquire_keys, release_keys, lock_manager,
}
use banking_transaction_syst.Adapters.InMemory.Locks.{release-acquire}

-- `TransferService.initiate` over the in-memory adapters.
abbrev pub service : Env → TransferCommand → MemWorld → Result TransactionDto × MemWorld
service env = initiate env unit_of_work (lock_manager env.uuid_text)

-- `initiate` after its lookup found no transaction.
abbrev pub after_lookup : Env → TransferCommand → MemWorld → Result TransactionDto × MemWorld
after_lookup env = perform env unit_of_work (lock_manager env.uuid_text)

pub unknown_key :
    (cmd : TransferCommand) (w : MemWorld)
    → lookup cmd.idempotency_key w.store.by_idempotency ≡ none
    → transaction_get_by_idempotency_key cmd.idempotency_key (set_committed false w)
      ≡ (ok none, set_committed false w)
unfolding transaction_get_by_idempotency_key
unknown_key cmd w new_key = rw new_key

-- The lookup of a new key changes the flag of the unit of work only.
pub service_new :
    (env : Env) (cmd : TransferCommand) (w : MemWorld)
    → lookup cmd.idempotency_key w.store.by_idempotency ≡ none
    → service env cmd w ≡ after_lookup env cmd (set_committed false w)
service_new env cmd w new_key =
    Requests.initiate_new env unit_of_work (lock_manager env.uuid_text) cmd w
      (set_committed false w) (unknown_key cmd w new_key)

module _ (env : Env) (cmd : TransferCommand) (c : Currency) (m : Money) (w : MemWorld) (s r : ℕ)
    (got held : Held) (known : parse_currency cmd.currency ≡ ok c)
    (rounded : money (decimal cmd.amount) c ≡ ok m)
    (free : acquire_keys env.uuid_text (lock_keys cmd.from_account_id cmd.to_account_id) w.locks
      ≡ (ok tt, got, held))
    (sender_known : lookup cmd.from_account_id w.store.accounts ≡ some s)
    (receiver_known : lookup cmd.to_account_id w.store.accounts ≡ some r) where
  abbrev pub entered : MemWorld
  entered = set_committed false (record w { locks = held })

  abbrev pub saw : ℕ → MemWorld → MemWorld
  saw ref v = record v {
    store = record v.store { accounts_seen = v.store.accounts_seen ++ (ref ∷ []) };
  }

  abbrev pub loaded : MemWorld
  loaded = saw r (saw s entered)

  pub got_sender : account_get cmd.from_account_id entered ≡ (ok (some s), saw s entered)
  unfolding account_get
  got_sender = rw sender_known

  pub got_receiver : account_get cmd.to_account_id (saw s entered) ≡ (ok (some r), loaded)
  unfolding account_get
  got_receiver = rw receiver_known

  pub acquired :
      (lock_manager env.uuid_text).acquire (lock_keys cmd.from_account_id cmd.to_account_id) w
      ≡ (ok tt, got, record w { locks = held })
  acquired = rw free

  module _ (t : Transaction.Transaction) (a b : Account)
      (made : Execution.begin cmd m (env.supply w.draws) ≡ ok t) (other : s ≢ r)
      (debits : debit (env.supply (suc (suc w.draws))) m t.id (w.accounts s) ≡ ok a)
      (credits : credit (env.supply (suc (suc (suc w.draws)))) m t.id (w.accounts r) ≡ ok b) where
    abbrev pub p : Parties
    p = record { sender = s; receiver = r; tx = w.next }

    abbrev pub start : MemWorld
    start =
        Execution.wc env unit_of_work cmd m entered (saw s entered) s got_sender loaded r
          got_receiver t made

    pub here : start.transactions w.next ≡ t
    here =
        Execution.here env unit_of_work cmd m entered (saw s entered) s got_sender loaded r
          got_receiver t made

    pub fresh : t.status ≡ pending
    fresh =
        Execution.fresh env unit_of_work cmd m entered (saw s entered) s got_sender loaded r
          got_receiver t made

    abbrev pub moved : MemWorld
    moved = Moves.w4 env p m start t here fresh a debits other b

    moves : move_money env p m start ≡ (ok tt, moved)
    moves = Moves.move_money_ok env p m start t here fresh a debits other b credits

    -- The transaction at the end.
    abbrev pub t2 : Transaction.Transaction
    t2 = Moves.t2 env p m start t here fresh a debits other

    pub at_tx : moved.transactions w.next ≡ t2
    at_tx = ground (arith, nat_beq_iff w.next w.next)

    abbrev pub saved : MemWorld
    saved = record moved {
      store = record moved.store {
        transactions = insert t2.id w.next moved.store.transactions;
        by_idempotency = insert t2.idempotency_key t2.id moved.store.by_idempotency;
        committed = true;
      };
    }

    persisted : persist env unit_of_work p moved ≡ (ok p, saved)
    unfolding persist transaction_save
    persisted = rw at_tx

    executed : execute env unit_of_work cmd m entered ≡ (ok p, saved)
    executed =
        Execution.execute_ok env unit_of_work cmd m entered (saw s entered) s got_sender loaded r
          got_receiver t made moved moves
        ∙ persisted

    unlocked : release_keys got held ≡ w.locks
    unlocked =
        rw free at
          (release-acquire env.uuid_text (lock_keys cmd.from_account_id cmd.to_account_id) w.locks)

    abbrev pub released : MemWorld
    released = record saved { locks = w.locks }

    performed :
        after_lookup env cmd w
        ≡ (publish_events p >> gets (λ v. transaction_dto (v.transactions p.tx))) released
    performed =
        Requests.perform_ok env unit_of_work (lock_manager env.uuid_text) cmd w c known m rounded
          got (record w { locks = held }) saved acquired p executed
        ∙ ap
            (λ (l : Held).
              (publish_events p >> gets (λ v. transaction_dto (v.transactions p.tx)))
                (record saved { locks = l }))
            unlocked

    pub at_sender : released.accounts s ≡ a
    at_sender = ground (arith, nat_beq_iff r s, nat_beq_iff s s)

    pub at_receiver : released.accounts r ≡ b
    at_receiver = ground (arith, nat_beq_iff r r)

    abbrev pub final : MemWorld
    final = record (Publication.w3 p released a b t2 other at_sender at_receiver at_tx) {
      published =
          w.published
          ++ Publication.published_events p released a b t2 other at_sender at_receiver at_tx;
    }

    -- The answer and the process after it.
    pub concluded :
        after_lookup env cmd w ≡ (ok (transaction_dto (final.transactions w.next)), final)
    concluded =
        performed
        ∙ bind_ok (publish_events p) _
            (Publication.publish_events_lem p released a b t2 other at_sender at_receiver at_tx)
