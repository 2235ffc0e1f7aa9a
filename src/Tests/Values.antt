-- ===== src/Tests/Values.antt =====
-- The theorems about `Money` and about the lock manager, applied to small values.
use banking_transaction_syst.Prelude.{◌+◌, ◌*◌, ◌≤◌, ◌<◌, ◌≡◌, refl, not, arith}
use banking_transaction_syst.Prelude.Tests.{ltb, if◌then◌else◌}
use banking_transaction_syst.Prelude.Int.{pos, negsuc, ◌≤ℤ◌, abs, ◌+ℤ◌, ◌-ℤ◌, ltb_ℤ}
use banking_transaction_syst.Domain.Enums.CurrencyEnum.{eur, same}
use banking_transaction_syst.Domain.Amount.{quantize, coefficient_bound}
use banking_transaction_syst.Domain.Exceptions.{ok, err, base, account, invalid_operation}
use banking_transaction_syst.Domain.Exceptions.Classes.{currency_mismatch, insufficient_funds}
use banking_transaction_syst.Domain.Money.{decimal, money, to_decimal, check_sign, add, sub}
use banking_transaction_syst.Domain.Money.Rounding.{IsMoney, money-IsMoney, quantize_nearest}
use banking_transaction_syst.Domain.Money.Arithmetic.{sub_lem, add_lem}
use banking_transaction_syst.Tests.Data.{euros, price}

hundred : IsMoney (euros 10000)
hundred = record { not_negative = ground arith; in_context = omega arith }

five : IsMoney (euros 500)
five = record { not_negative = ground arith; in_context = omega arith }

money-IsMoney_example : IsMoney (euros 2550) × (eur ≡ eur)
unfolding money to_decimal check_sign quantize
money-IsMoney_example = money-IsMoney (decimal price) eur (euros 2550) refl

-- 1.005 is 1.01, and a hundredth is ten of its units.
-- -1.005 is rounded to -1.01.
quantize_nearest_example :
    (2 * 10 * 101 ≤ 2 * 1005 + 10)
    × (2 * 1005 + 10 < 2 * 10 * 102)
    × (pos 0 ≤ℤ negsuc 1004 → pos 0 ≤ℤ negsuc 100)
    × (negsuc 1004 ≤ℤ pos 0 → negsuc 100 ≤ℤ pos 0)
unfolding quantize
quantize_nearest_example = quantize_nearest (negsuc 1004) 3 (negsuc 100) refl (omega arith)

sub_lem_example : sub (euros 500) (euros 10000) ≡ (
    if not (same eur eur)
    then err (base (currency_mismatch eur eur))
    else if ltb_ℤ (pos 500) (pos 10000)
    then err (account (insufficient_funds (euros 500) (euros 10000)))
    else ok (record { amount = pos 500 -ℤ pos 10000; currency = eur }))
sub_lem_example = sub_lem (euros 500) (euros 10000) five hundred

add_lem_example : add (euros 500) (euros 10000) ≡ (
    if not (same eur eur)
    then err (base (currency_mismatch eur eur))
    else if ltb (abs (pos 500 +ℤ pos 10000)) coefficient_bound
    then ok (record { amount = pos 500 +ℤ pos 10000; currency = eur })
    else err invalid_operation)
add_lem_example = add_lem (euros 500) (euros 10000) five hundred
