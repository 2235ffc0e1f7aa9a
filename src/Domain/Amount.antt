-- ===== src/Domain/Amount.antt =====
-- Decimal amounts and the value object `Money` with its text (src/domain/value_objects/money.py).
-- A `Decimal` is a finite number, `units` / 10 ^ `places`, or a NaN or an infinity. A Money's
-- amount is kept in hundredths, since `__post_init__` leaves two places. The context is Python's
-- default one: a result has 28 digits at most.
use banking_transaction_syst.Prelude.{
  ℕ, ◌+◌, ◌-◌, ◌*◌, ◌/◌, ◌%◌, ◌^◌, String, ◌<>◌, Option, none, some,
}
use banking_transaction_syst.Prelude.Tests.{ltb, leb, if◌then◌else◌}
use banking_transaction_syst.Prelude.Int.{ℤ, pos, abs, with_sign, ltb_ℤ}
use banking_transaction_syst.Prelude.Text.{show, show_pair}
use banking_transaction_syst.Domain.Enums.CurrencyEnum
use banking_transaction_syst.Domain.Enums.CurrencyEnum.{Currency}

pub data Decimal : Type 0 where
  finite : ℤ → ℕ → Decimal
  not_finite : Decimal

-- A number with two places.
abbrev pub hundredths : ℤ → Decimal
hundredths n = finite n 2

abbrev pub coefficient_bound : ℕ
coefficient_bound = 10000000000000000000000000000

-- The magnitude in hundredths; a tie rounds away from zero.
abbrev pub round_half_up : ℕ → ℕ → ℕ
round_half_up units places =
    if leb places 2
    then units * 10 ^ (2 - places)
    else (2 * units + 10 ^ (places - 2)) / (2 * 10 ^ (places - 2))

-- `d.quantize(Decimal("0.01"), ROUND_HALF_UP)` in hundredths; `none` is `InvalidOperation`, which
-- for a NaN is raised by the comparison that follows.
unfoldable pub quantize : Decimal → Option ℤ
quantize not_finite = none
quantize (finite units places) =
    let m = round_half_up (abs units) places in
    if ltb m coefficient_bound then some (with_sign units m) else none

pub record Money : Type 0 where
  pub amount : ℤ
  pub currency : Currency

-- `f"{amount:.2f}"`
unfoldable pub amount_text : ℤ → String
amount_text n =
    (if ltb_ℤ n (pos 0) then "-" else "") <> show (abs n / 100) <> "." <> show_pair (abs n % 100)

-- `Money.__str__`
unfoldable pub money_text : Money → String
unfolding amount_text CurrencyEnum.value
money_text m = CurrencyEnum.value m.currency <> " " <> amount_text m.amount
