-- ===== src/Adapters/InMemory/Errors.antt =====
-- Transfers over the in-memory adapters that stop before any money moves.
use banking_transaction_syst.Prelude.{ℕ, ◌≡◌, ◌≢◌, refl, ap, ◌∙◌, false, some, none, List, ◌∷◌, []}
use banking_transaction_syst.Prelude.Tests.{nat_eq, string_eq}
use banking_transaction_syst.Prelude.Dict.{lookup}
use banking_transaction_syst.Domain.Enums.CurrencyEnum.{Currency}
use banking_transaction_syst.Domain.Amount.{Money}
use banking_transaction_syst.Domain.Money.{decimal, money}
use banking_transaction_syst.Domain.Exceptions.{ok, err, base}
use banking_transaction_syst.Domain.Exceptions.Classes.{concurrency_conflict, resource_not_found}
use banking_transaction_syst.Application.Runtime.{Env}
use banking_transaction_syst.Application.Dtos.{TransferCommand}
use banking_transaction_syst.Application.TransferService.{parse_currency, lock_keys}
use banking_transaction_syst.Application.TransferService.Execution
use banking_transaction_syst.Application.TransferService.Requests
use banking_transaction_syst.Adapters.InMemory.{
  MemWorld, Held, holds, set_committed, acquire_keys, release_keys, account_get, see,
  transaction_get_by_idempotency_key, unit_of_work, lock_manager,
}
use banking_transaction_syst.Adapters.InMemory.Locks.{acquire_pair, acquire_same, release-acquire}
use banking_transaction_syst.Adapters.InMemory.Success.{service}

module _ (env : Env) (cmd : TransferCommand) (c : Currency) (m : Money) (w : MemWorld)
    (new_key : lookup cmd.idempotency_key w.store.by_idempotency ≡ none)
    (known : parse_currency cmd.currency ≡ ok c) (rounded : money (decimal cmd.amount) c ≡ ok m)
    (sender_free : holds cmd.from_account_id w.locks ≡ false) where
  abbrev keys : List ℕ
  keys = lock_keys cmd.from_account_id cmd.to_account_id

  unknown_key :
      transaction_get_by_idempotency_key cmd.idempotency_key (set_committed false w)
      ≡ (ok none, set_committed false w)
  unfolding transaction_get_by_idempotency_key
  unknown_key = rw new_key

  -- A new key, a currency and an amount that parse, and one account on both sides that nobody has
  -- locked: the answer is a concurrency conflict, because the second of the two equal keys is found
  -- held. The guard of `Transaction.initiate` against equal accounts is never reached, and nothing
  -- changes but the flag of the unit of work.
  pub same_account_conflicts :
      cmd.to_account_id ≡ cmd.from_account_id
      → service env cmd w ≡ (
        err (base (concurrency_conflict (env.uuid_text cmd.from_account_id))),
        set_committed false w,
      )
  same_account_conflicts same =
      Requests.initiate_new env unit_of_work (lock_manager env.uuid_text) cmd w
        (set_committed false w) unknown_key
      ∙ (Requests.perform_locked env unit_of_work (lock_manager env.uuid_text) cmd
            (set_committed false w) c known m rounded
            (base (concurrency_conflict (env.uuid_text cmd.from_account_id)))
            (cmd.from_account_id ∷ [])
            (record (set_committed false w) { locks = cmd.from_account_id ∷ w.locks })
            (rw refused refl)
          ∙ ap
              (λ (l : Held). (
                err (base (concurrency_conflict (env.uuid_text cmd.from_account_id))),
                record (set_committed false w) { locks = l },
              ))
              unlocked)
    where
      refused : acquire_keys env.uuid_text keys w.locks ≡ (
        err (base (concurrency_conflict (env.uuid_text cmd.from_account_id))),
        cmd.from_account_id ∷ [],
        cmd.from_account_id ∷ w.locks,
      )
      refused = rw same (acquire_same env.uuid_text cmd.from_account_id w.locks sender_free)

      unlocked : release_keys (cmd.from_account_id ∷ []) (cmd.from_account_id ∷ w.locks) ≡ w.locks
      unlocked = rw refused at (release-acquire env.uuid_text keys w.locks)

  module _ (distinct : cmd.from_account_id ≢ cmd.to_account_id)
      (receiver_free : holds cmd.to_account_id w.locks ≡ false) where
    -- A new key, a currency and an amount that parse, two different accounts that nobody has locked,
    -- and a sender that is not stored: the answer names the sender, and nothing changes but the flag of
    -- the unit of work.
    sender_not_found :
        lookup cmd.from_account_id w.store.accounts ≡ none
        → service env cmd w
          ≡ (err (base (resource_not_found "Account" cmd.from_account_id)), set_committed false w)
    sender_not_found missing =
        let (held, free) =
          acquire_pair env.uuid_text cmd.from_account_id cmd.to_account_id w.locks distinct
            sender_free receiver_free in
        let inside : MemWorld = record (set_committed false w) { locks = held } in
        Requests.initiate_new env unit_of_work (lock_manager env.uuid_text) cmd w
          (set_committed false w) unknown_key
        ∙ (Requests.perform_err env unit_of_work (lock_manager env.uuid_text) cmd
              (set_committed false w) c known m rounded keys inside inside (rw free refl)
              (base (resource_not_found "Account" cmd.from_account_id))
              (Execution.execute_no_sender env unit_of_work cmd m inside inside
                (unfold account_get see in rw missing refl))
            ∙ ap
                (λ (l : Held). (
                  err (base (resource_not_found "Account" cmd.from_account_id)),
                  record (set_committed false w) { locks = l },
                ))
                (rw free at (release-acquire env.uuid_text keys w.locks)))

    -- A new key, a currency and an amount that parse, two different accounts that nobody has locked,
    -- and a sender that is stored but a receiver that is not: the answer names the receiver, and the
    -- sender's object is noted as seen, which is all that changes beside the flag of the unit of work.
    receiver_not_found :
        (s : ℕ)
        → lookup cmd.from_account_id w.store.accounts ≡ some s
        → lookup cmd.to_account_id w.store.accounts ≡ none
        → service env cmd w ≡ (
          err (base (resource_not_found "Account" cmd.to_account_id)),
          see (some s) (set_committed false w),
        )
    unfolding see
    receiver_not_found s found missing =
        let (held, free) =
          acquire_pair env.uuid_text cmd.from_account_id cmd.to_account_id w.locks distinct
            sender_free receiver_free in
        let inside : MemWorld = record (set_committed false w) { locks = held } in
        Requests.initiate_new env unit_of_work (lock_manager env.uuid_text) cmd w
          (set_committed false w) unknown_key
        ∙ (Requests.perform_err env unit_of_work (lock_manager env.uuid_text) cmd
              (set_committed false w) c known m rounded keys inside (see (some s) inside)
              (rw free refl) (base (resource_not_found "Account" cmd.to_account_id))
              (Execution.execute_no_receiver env unit_of_work cmd m inside (see (some s) inside) s
                (unfold account_get in rw found refl) (see (some s) inside)
                (unfold account_get see in rw missing refl))
            ∙ ap
                (λ (l : Held). (
                  err (base (resource_not_found "Account" cmd.to_account_id)),
                  record (see (some s) (set_committed false w)) { locks = l },
                ))
                (rw free at (release-acquire env.uuid_text keys w.locks)))
