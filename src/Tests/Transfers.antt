-- ===== src/Tests/Transfers.antt =====
-- The theorems about the services, applied to a small process.
use banking_transaction_syst.Prelude.{ℕ, ◌≡◌, ◌≢◌, refl, false, List, [], ◌∷◌, ◌++◌, map, arith}
use banking_transaction_syst.Prelude.Tests.{nat_eq, string_eq}
use banking_transaction_syst.Prelude.Dict.{lookup}
use banking_transaction_syst.Prelude.Int.{pos, ◌+ℤ◌, ◌-ℤ◌}
use banking_transaction_syst.Domain.Enums.CurrencyEnum.{eur}
use banking_transaction_syst.Domain.Enums.CurrencyEnum
use banking_transaction_syst.Domain.Amount.{quantize}
use banking_transaction_syst.Domain.Money.{money, to_decimal, check_sign, sub, add, is_zero}
use banking_transaction_syst.Domain.Exceptions.{err, base, account}
use banking_transaction_syst.Domain.Exceptions.Classes.{
  concurrency_conflict, resource_not_found, insufficient_funds,
}
use banking_transaction_syst.Domain.Exceptions.Classes
use banking_transaction_syst.Domain.Events.{DomainEvent, event_type}
use banking_transaction_syst.Domain.Account.{debit, credit, assert_not_closed, assert_not_frozen}
use banking_transaction_syst.Application.TransferService.{parse_currency}
use banking_transaction_syst.Application.AccountService.{create_account}
use banking_transaction_syst.Adapters.InMemory.{holds, set_committed, unit_of_work}
use banking_transaction_syst.Adapters.InMemory.Success.{service}
use banking_transaction_syst.Adapters.InMemory.Completion.{Transferred}
use banking_transaction_syst.Adapters.InMemory.Transfers.{
  transfer_succeeds, transfer_conserves, transfer_publishes,
}
use banking_transaction_syst.Adapters.InMemory.Failures.{debit-Refused, credit-Refused}
use banking_transaction_syst.Adapters.InMemory.Failures.Stops.{Refused}
use banking_transaction_syst.Adapters.InMemory.Errors.{same_account_conflicts}
use banking_transaction_syst.Adapters.InMemory.Balance.{AreSound, initiate_locks, initiate_sound}
use banking_transaction_syst.Adapters.InMemory.Accounts.{Created, create_account-Created}
use banking_transaction_syst.Tests.Data.{
  env, euros, world, world_of, alice, frozen_bob, command, price, fortune, opening,
}

transfer_succeeds_example :
    let (answer, w') = service env (command 1 2 price) world in
    Transferred (command 1 2 price) 0 1 (euros 7450) (euros 3050) world w' answer
unfolding lookup parse_currency CurrencyEnum.of_value money to_decimal check_sign quantize is_zero
    holds sub add ◌+ℤ◌ ◌-ℤ◌
transfer_succeeds_example =
    transfer_succeeds env (command 1 2 price) eur (euros 2550) (euros 7450) (euros 3050) world 0 1
      refl refl refl refl (omega arith) refl refl refl refl (omega arith) refl refl refl refl

transfer_conserves_example :
    let (answer, w') = service env (command 1 2 price) world in
    (w'.accounts 0).balance.amount +ℤ (w'.accounts 1).balance.amount ≡ pos 10000 +ℤ pos 500
unfolding lookup parse_currency CurrencyEnum.of_value money to_decimal check_sign quantize is_zero
    holds sub add ◌+ℤ◌ ◌-ℤ◌
transfer_conserves_example =
    transfer_conserves env (command 1 2 price) eur (euros 2550) (euros 7450) (euros 3050) world 0 1
      refl refl refl refl (omega arith) refl refl refl refl (omega arith) refl refl refl refl
      (record { not_negative = ground arith; in_context = omega arith })
      (record { not_negative = ground arith; in_context = omega arith })

transfer_publishes_example :
    let (answer, w') = service env (command 1 2 price) world in
    (es : List DomainEvent) × (w'.published ≡ [] ++ es)
    × (map event_type es
        ≡ "BalanceDebited" ∷ "BalanceCredited" ∷ "TransactionInitiated" ∷ "TransactionProcessing"
          ∷ "TransactionCompleted" ∷ [])
    × ((w'.accounts 0).domain_events ≡ [])
    × ((w'.accounts 1).domain_events ≡ [])
    × ((w'.transactions 2).domain_events ≡ [])
unfolding lookup parse_currency CurrencyEnum.of_value money to_decimal check_sign quantize is_zero
    holds sub add ◌+ℤ◌ ◌-ℤ◌
transfer_publishes_example =
    transfer_publishes env (command 1 2 price) eur (euros 2550) (euros 7450) (euros 3050) world 0 1
      refl refl refl refl (omega arith) refl refl refl refl (omega arith) refl refl refl refl refl
      refl

debit-Refused_example :
    let (answer, w') = service env (command 1 2 fortune) world in
    Refused env
      (command 1 2 fortune)
      (account (insufficient_funds (euros 10000) (euros 25000)))
      world
      w'
      answer
    × (w'.accounts ≡ world.accounts)
unfolding lookup parse_currency CurrencyEnum.of_value money to_decimal check_sign quantize is_zero
    holds sub ◌-ℤ◌ debit assert_not_closed assert_not_frozen
debit-Refused_example =
    debit-Refused env (command 1 2 fortune) eur (euros 25000) world 0 1 refl refl refl refl
      (omega arith) refl refl refl refl (account (insufficient_funds (euros 10000) (euros 25000)))
      (λ d tx. refl)

credit-Refused_example :
    let (answer, w') = service env (command 1 2 price) (world_of alice frozen_bob) in
    Refused env
      (command 1 2 price)
      (account (Classes.AccountError.account_frozen 2))
      (world_of alice frozen_bob)
      w'
      answer
    × ((w'.accounts 0).balance ≡ euros 7450)
    × ((j : ℕ) → 0 ≢ j → w'.accounts j ≡ (world_of alice frozen_bob).accounts j)
unfolding lookup parse_currency CurrencyEnum.of_value money to_decimal check_sign quantize is_zero
    holds sub ◌-ℤ◌ credit assert_not_closed assert_not_frozen
credit-Refused_example =
    credit-Refused env (command 1 2 price) eur (euros 2550) (world_of alice frozen_bob) 0 1 refl
      refl refl refl (omega arith) refl refl refl refl
      (account (Classes.AccountError.account_frozen 2)) (euros 7450) refl refl (omega arith)
      (λ d tx. refl)

same_account_conflicts_example :
    service env (command 1 1 price) world
    ≡ (err (base (concurrency_conflict (env.uuid_text 1))), set_committed false world)
unfolding lookup parse_currency CurrencyEnum.of_value money to_decimal check_sign quantize holds
same_account_conflicts_example =
    same_account_conflicts env (command 1 1 price) eur (euros 2550) world refl refl refl refl refl

initiate_locks_example : (service env (command 1 2 price) world).1.locks ≡ 77 ∷ []
initiate_locks_example = initiate_locks env (command 1 2 price) world

both_sound : AreSound world
both_sound ref = ground arith

initiate_sound_example : AreSound (service env (command 1 2 fortune) world).1
initiate_sound_example = initiate_sound env (command 1 2 fortune) world both_sound

create_account-Created_example :
    let (answer, w') = create_account env unit_of_work opening world in
    Created env opening (euros 2550) world w' answer
unfolding parse_currency CurrencyEnum.of_value money to_decimal check_sign quantize
create_account-Created_example = create_account-Created env opening eur (euros 2550) world refl refl
