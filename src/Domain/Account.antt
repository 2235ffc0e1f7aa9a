-- ===== src/Domain/Account.antt =====
-- The aggregate `Account` (src/domain/entities/account.py). A method that raises does so before its
-- first assignment, so it is a function to the changed account or to the exception.
pub mod Lifecycle
pub mod Replay
pub mod Identity
use banking_transaction_syst.Prelude.{ℕ, String, ◌<>◌, not, Option, none, some, []}
use banking_transaction_syst.Prelude.Tests.{if◌then◌else◌}
use banking_transaction_syst.Prelude.Int.{pos}
use banking_transaction_syst.Domain.Enums.CurrencyEnum.{Currency}
use banking_transaction_syst.Domain.Enums.CurrencyEnum
use banking_transaction_syst.Domain.Enums.AccountStatusEnum.{
  AccountStatus, active, frozen, closed, same,
}
use banking_transaction_syst.Domain.Amount.{Money, finite}
use banking_transaction_syst.Domain.Money.{decimal, money, add, sub, is_zero}
use banking_transaction_syst.Domain.Exceptions.{
  Result, ok, err, base, account, ◌>>=◌, ◌>>◌, raise_if,
}
use banking_transaction_syst.Domain.Exceptions.Classes.{currency_mismatch}
use banking_transaction_syst.Domain.Exceptions.Classes
use banking_transaction_syst.Domain.Events.{
  EventBody, of_account, account_created, balance_debited, balance_credited, account_frozen,
  account_unfrozen, account_closed,
}
use banking_transaction_syst.Domain.Base.{Draw, Root, new_root, record_event}

pub record Account : Type 0 where
  pub root : Root
  pub open root use *
  pub owner_id : ℕ
  pub account_number : String
  pub status : AccountStatus
  pub balance : Money

-- The property `currency`.
abbrev pub currency : Account → Currency
currency a = a.balance.currency

abbrev code : Money → String
code m = CurrencyEnum.value m.currency

-- `_generate_account_number`, with sixteen random digits.
unfoldable pub generate_account_number : Draw → String
generate_account_number d = "DE" <> d.digits

opening_balance : Currency → Option Money → Result Money
opening_balance c none = money (decimal (finite (pos 0) 0)) c
opening_balance c (some m) = ok m

unfoldable pub create : Draw → ℕ → Currency → Option Money → Result Account
unfolding opening_balance
create d owner c initial = do
  balance ← opening_balance c initial
  raise_if (not (CurrencyEnum.same balance.currency c))
      (base (currency_mismatch balance.currency c))
  ok (record {
    root =
        record_event d (of_account (account_created d.uuid owner (code balance) balance.amount))
          (new_root d);
    owner_id = owner;
    account_number = generate_account_number d;
    status = active;
    balance = balance;
  })

-- `reconstitute`, with an empty event list.
unfoldable pub reconstitute :
    (id owner_id : ℕ) (account_number : String) (balance : Money) (status : AccountStatus)
    (created_at updated_at : ℕ)
    → Account
reconstitute id owner number balance status created updated = record {
  root = record { id = id; created_at = created; updated_at = updated; domain_events = [] };
  owner_id = owner;
  account_number = number;
  status = status;
  balance = balance;
}

unfoldable pub assert_not_closed : Account → Result (Unit {0})
assert_not_closed a =
    raise_if (same a.status closed) (account (Classes.AccountError.account_closed a.id))

unfoldable pub assert_not_frozen : Account → Result (Unit {0})
assert_not_frozen a =
    raise_if (same a.status frozen) (account (Classes.AccountError.account_frozen a.id))

-- `updated_at = _now()` and the event, which both mutators end with.
abbrev touch : Draw → EventBody → Root → Root
touch d body r = record_event d body (record r { updated_at = d.now })

-- The assignments of `debit`, with the new balance.
abbrev pub debited : Draw → Money → ℕ → Money → Account → Account
debited d amount transaction_id rest a = record a {
  balance = rest;
  root =
      touch d
        (of_account (balance_debited a.id transaction_id amount.amount (code amount) rest.amount))
        a.root;
}

unfoldable pub debit : Draw → Money → ℕ → Account → Result Account
unfolding assert_not_closed assert_not_frozen
debit d amount transaction_id a = do
  assert_not_closed a
  assert_not_frozen a
  rest ← sub a.balance amount
  ok (debited d amount transaction_id rest a)

-- The assignments of `credit`, with the new balance.
abbrev pub credited : Draw → Money → ℕ → Money → Account → Account
credited d amount transaction_id sum a = record a {
  balance = sum;
  root =
      touch d
        (of_account (balance_credited a.id transaction_id amount.amount (code amount) sum.amount))
        a.root;
}

unfoldable pub credit : Draw → Money → ℕ → Account → Result Account
unfolding assert_not_closed assert_not_frozen
credit d amount transaction_id a = do
  assert_not_closed a
  assert_not_frozen a
  sum ← add a.balance amount
  ok (credited d amount transaction_id sum a)

unfoldable pub freeze : Draw → String → Account → Result Account
unfolding assert_not_closed
freeze d reason a = do
  assert_not_closed a
  if same a.status frozen
      then ok a
      else ok (record a {
        status = frozen;
        root = touch d (of_account (account_frozen a.id a.owner_id reason)) a.root;
      })

unfoldable pub unfreeze : Draw → Account → Result Account
unfolding assert_not_closed
unfreeze d a = do
  assert_not_closed a
  if same a.status active
      then ok a
      else ok (record a {
        status = active;
        root = touch d (of_account (account_unfrozen a.id a.owner_id)) a.root;
      })

unfoldable pub close : Draw → Account → Result Account
unfolding assert_not_closed
close d a = do
  assert_not_closed a
  raise_if (not (is_zero a.balance))
      (account (Classes.AccountError.account_not_empty a.id a.balance))
  ok (record a {
    status = closed;
    root = touch d (of_account (account_closed a.id a.owner_id)) a.root;
  })
