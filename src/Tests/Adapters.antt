-- ===== src/Tests/Adapters.antt =====
-- The theorems about the mappers and the HTTP adapter, applied to small inputs.
use banking_transaction_syst.Prelude.{
  ℕ, ◌+◌, ◌*◌, ◌^◌, ◌<◌, ◌≡◌, refl, true, false, Option, none, some, List, [], ◌∷◌, arith,
}
use banking_transaction_syst.Prelude.Tests.{◌==◌, nat_eq}
use banking_transaction_syst.Prelude.Int.{ℤ, pos, negsuc, abs, with_sign}
use banking_transaction_syst.Domain.Amount.{Decimal, finite, not_finite, hundredths, quantize}
use banking_transaction_syst.Domain.Money.Rounding.{IsMoney}
use banking_transaction_syst.Domain.Exceptions.{ok, transaction}
use banking_transaction_syst.Domain.Exceptions.Classes
use banking_transaction_syst.Domain.Base.{Draw}
use banking_transaction_syst.Domain.Account.{freeze}
use banking_transaction_syst.Domain.Account.Lifecycle as Calls
use banking_transaction_syst.Domain.Account.Lifecycle.{IsSound}
use banking_transaction_syst.Domain.Transaction.{Transaction, mark_rolled_back, needs_rollback}
use banking_transaction_syst.Domain.Transaction.Lifecycle as Steps
use banking_transaction_syst.Domain.Transaction.Histories.{history}
use banking_transaction_syst.Application.TransferService.Publication.{cleared, cleared_tx}
use banking_transaction_syst.Adapters.Mappers.AccountMapper
use banking_transaction_syst.Adapters.Mappers.TransactionMapper
use banking_transaction_syst.Adapters.Mappers.RoundTrip.{
  stored, stored_tx, account_read_back, transaction_read_back,
}
use banking_transaction_syst.Adapters.Http.Status.{status_code, transition_status}
use banking_transaction_syst.Domain.Base.{new_root}
use banking_transaction_syst.Domain.Enums.TransactionStatusEnum as Status
use banking_transaction_syst.Adapters.Http.Auth.{
  AuthenticatedUser, HttpException, resolved, raised, can_access_account, get_current_user,
  require_admin,
}
use banking_transaction_syst.Adapters.Http.Auth.Callers.{caller_rights}
use banking_transaction_syst.Prelude.Tests.{if◌then◌else◌}
use banking_transaction_syst.Domain.Enums.CurrencyEnum.{eur}
use banking_transaction_syst.Domain.Money.{money, to_decimal, check_sign}
use banking_transaction_syst.Adapters.InMemory.{unit_of_work}
use banking_transaction_syst.Adapters.Http.Accounts.{AccountResponse, create_account, get_account}
use banking_transaction_syst.Adapters.Http.Accounts.Ownership.{opened_account_visible}
use banking_transaction_syst.Tests.Data.{env, world, price, draw, euros, alice, pending_tx}

-- A number with two places comes back with four.
abbrev widened : Decimal → Decimal
widened (finite z p) = finite (with_sign z (100 * abs z)) (p + 2)
widened not_finite = not_finite

widened_value : (n : ℤ) → abs n < 10 ^ 17 → quantize (widened (hundredths n)) ≡ some n
unfolding quantize
widened_value (pos n) h = ground arith
widened_value (negsuc n) h = ground arith

price_ok : IsMoney (euros 2550)
price_ok = record { not_negative = ground arith; in_context = omega arith }

alice_ok : IsSound alice
alice_ok = record {
  money = record { not_negative = ground arith; in_context = omega arith };
  emptied = λ h. ground arith;
}

abbrev freeze_only : List (Draw × Calls.Call)
freeze_only = (draw 1, Calls.freezes "review") ∷ []

account_read_back_example :
    AccountMapper.to_domain (
      stored widened widened_value (
        AccountMapper.update_orm
          (stored widened widened_value (AccountMapper.to_new_orm alice))
          (Calls.history freeze_only alice)))
    ≡ ok (cleared (Calls.history freeze_only alice))
unfolding Calls.history Calls.apply freeze
account_read_back_example =
    account_read_back widened widened_value freeze_only alice alice_ok (tt, tt) (omega arith)

abbrev failure : List (Draw × Steps.Call)
failure = (draw 1, Steps.processes) ∷ (draw 2, Steps.fails [] "no") ∷ []

transaction_read_back_example :
    (u : Transaction) × (TransactionMapper.to_domain (
        TransactionMapper.update_orm
          (stored_tx widened widened_value (TransactionMapper.to_new_orm pending_tx))
          (history failure pending_tx))
      ≡ ok u)
    × (u ≡ record (cleared_tx (history failure pending_tx)) { rollback_required = false })
    × (needs_rollback u ≡ false)
transaction_read_back_example =
    transaction_read_back widened widened_value failure pending_tx price_ok (omega arith)

transition_status_example :
    status_code (transaction (Classes.TransactionError.rollback_error 100 "pending")) ≡ 500
unfolding Steps.apply mark_rolled_back new_root Status.value
transition_status_example =
    transition_status (draw 3) Steps.rolls_back pending_tx
      (transaction (Classes.TransactionError.rollback_error 100 "pending")) refl

-- Every text is the UUID 5.
abbrev parse : List ℕ → Option ℕ
parse _ = some 5

caller_rights_example :
    ((owner : ℕ)
      → can_access_account owner (record { user_id = 5; roles = "user" ∷ [] }) ≡ (5 == owner))
    × ((e : HttpException) × (require_admin (get_current_user parse true (some (1 ∷ [])) none)
          ≡ raised e)
        × (e.status_code ≡ 403))
unfolding get_current_user
caller_rights_example =
    caller_rights parse true (some (1 ∷ [])) none (record { user_id = 5; roles = "user" ∷ [] }) refl

abbrev caller : ℕ → AuthenticatedUser
caller id = record { user_id = id; roles = "user" ∷ [] }

opened_account_visible_example :
    let (reply, w') =
      create_account env unit_of_work
        (caller 9)
        (record { currency = eur; initial_balance = price })
        world in
    (opened : AccountResponse) × (reply ≡ resolved opened)
    × (opened.owner_id ≡ 9)
    × (opened.balance ≡ pos 2550)
    × ((other : AuthenticatedUser)
        → (get_account env unit_of_work other opened.id w').0 ≡ (
            if can_access_account 9 other
            then resolved opened
            else raised
                (record { status_code = 403; detail = "You do not have access to this account." })))
unfolding money to_decimal check_sign quantize
opened_account_visible_example =
    opened_account_visible env (caller 9) (record { currency = eur; initial_balance = price })
      (euros 2550) world refl
