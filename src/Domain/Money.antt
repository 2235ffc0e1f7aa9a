-- ===== src/Domain/Money.antt =====
-- The methods of `Money` (src/domain/value_objects/money.py).
pub mod Arithmetic
pub mod Rounding
use banking_transaction_syst.Prelude.{ℕ, String, ◌<>◌, Bool, not, Option, none, some, ◌&&◌}
use banking_transaction_syst.Prelude.Tests.{if◌then◌else◌}
use banking_transaction_syst.Prelude.Int.{ℤ, pos, ◌+ℤ◌, ◌-ℤ◌, ltb_ℤ, leb_ℤ}
use banking_transaction_syst.Domain.Enums.CurrencyEnum.{Currency, same}
use banking_transaction_syst.Domain.Amount.{
  Decimal, hundredths, quantize, Money, amount_text, money_text,
}
use banking_transaction_syst.Domain.Exceptions.{
  Result, ok, err, base, account, value_error, invalid_operation, ◌>>=◌, ◌>>◌, raise_if, or_raise,
}
use banking_transaction_syst.Domain.Exceptions.Classes.{currency_mismatch, insufficient_funds}

-- What the constructor is given: a `Decimal`, or another value by its `repr` and by what
-- `Decimal(str(value))` makes of it, with `none` for `InvalidOperation`.
pub data RawAmount : Type 0 where
  decimal : Decimal → RawAmount
  other : String → Option Decimal → RawAmount

unfoldable pub to_decimal : RawAmount → Result Decimal
to_decimal (decimal d) = ok d
to_decimal (other shown parsed) =
    or_raise parsed (value_error ("Invalid monetary amount: " <> shown))

-- The last test of `__post_init__`.
unfoldable pub check_sign : Currency → ℤ → Result Money
check_sign c n =
    if ltb_ℤ n (pos 0)
    then err (
        value_error (
          "Money amount cannot be negative: "
          <> amount_text n
          <> ". Use a positive amount and call debit() on the account."))
    else ok (record { amount = n; currency = c })

-- `Money(amount, currency)`: the dataclass constructor with `__post_init__`.
unfoldable pub money : RawAmount → Currency → Result Money
unfolding to_decimal check_sign
money raw c = do
  d ← to_decimal raw
  rounded ← or_raise (quantize d) invalid_operation
  check_sign c rounded

unfoldable pub assert_same_currency : Money → Money → Result (Unit {0})
assert_same_currency m n =
    raise_if (not (same m.currency n.currency)) (base (currency_mismatch m.currency n.currency))

-- `__add__`
unfoldable pub add : Money → Money → Result Money
unfolding assert_same_currency
add m n = do
  assert_same_currency m n
  money (decimal (hundredths (m.amount +ℤ n.amount))) m.currency

-- `__sub__`
unfoldable pub sub : Money → Money → Result Money
unfolding assert_same_currency
sub m n = do
  assert_same_currency m n
  result ← or_raise (quantize (hundredths (m.amount -ℤ n.amount))) invalid_operation
  raise_if (ltb_ℤ result (pos 0)) (account (insufficient_funds m n))
  money (decimal (hundredths result)) m.currency

-- `__lt__`, `__le__`, `__gt__`, `__ge__`
compare_with : (ℤ → ℤ → Bool) → Money → Money → Result Bool
unfolding assert_same_currency
compare_with test m n = do assert_same_currency m n; ok (test m.amount n.amount)

unfoldable pub lt : Money → Money → Result Bool
unfolding compare_with
lt = compare_with ltb_ℤ

unfoldable pub le : Money → Money → Result Bool
unfolding compare_with
le = compare_with leb_ℤ

unfoldable pub gt : Money → Money → Result Bool
unfolding compare_with
gt = compare_with (λ a b. ltb_ℤ b a)

unfoldable pub ge : Money → Money → Result Bool
unfolding compare_with
ge = compare_with (λ a b. leb_ℤ b a)

unfoldable pub is_zero : Money → Bool
is_zero m = leb_ℤ m.amount (pos 0) && leb_ℤ (pos 0) m.amount
