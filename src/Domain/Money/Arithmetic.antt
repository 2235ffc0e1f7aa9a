-- ===== src/Domain/Money/Arithmetic.antt =====
-- What `__add__` and `__sub__` do on every branch, for values that the constructor made.
use banking_transaction_syst.Prelude.{◌≡◌, ◌↔◌, true, not, arith}
use banking_transaction_syst.Prelude.Tests.{ltb, if◌then◌else◌}
use banking_transaction_syst.Prelude.Int.{abs, ◌+ℤ◌, ◌-ℤ◌, ltb_ℤ, int_laws, -ℤ_parts, +ℤ_parts}
use banking_transaction_syst.Domain.Enums.CurrencyEnum.{same, eq_of_same}
use banking_transaction_syst.Domain.Amount.{coefficient_bound, Money, quantize}
use banking_transaction_syst.Domain.Exceptions.{ok, err, base, account, invalid_operation}
use banking_transaction_syst.Domain.Exceptions.Classes.{currency_mismatch, insufficient_funds}
use banking_transaction_syst.Domain.Money.{money, to_decimal, check_sign, add, sub, ge}
use banking_transaction_syst.Domain.Money.Rounding.{IsMoney, quantize-hundredths}

-- `sub` by branches: another currency, an overdraft, and else the exact difference, which is a
-- Money again.
pub sub_lem :
    (m n : Money)
    → IsMoney m
    → IsMoney n
    → sub m n ≡ (
        if not (same m.currency n.currency)
        then err (base (currency_mismatch m.currency n.currency))
        else if ltb_ℤ m.amount n.amount
        then err (account (insufficient_funds m n))
        else ok (record { amount = m.amount -ℤ n.amount; currency = m.currency }))
unfolding sub money to_decimal check_sign ◌-ℤ◌
sub_lem m n hm hn = ground (arith, quantize-hundredths (m.amount -ℤ n.amount))

-- `add` by branches: another currency, a sum of more than 28 digits, and else the exact sum.
pub add_lem :
    (m n : Money)
    → IsMoney m
    → IsMoney n
    → add m n ≡ (
        if not (same m.currency n.currency)
        then err (base (currency_mismatch m.currency n.currency))
        else if ltb (abs (m.amount +ℤ n.amount)) coefficient_bound
        then ok (record { amount = m.amount +ℤ n.amount; currency = m.currency })
        else err invalid_operation)
unfolding add money to_decimal check_sign ◌+ℤ◌ quantize
add_lem m n hm hn = ground arith

-- What a difference that did not raise is.
pub sub_ok :
    (m n d : Money)
    → IsMoney m
    → IsMoney n
    → sub m n ≡ ok d
    → IsMoney d
      × (m.currency ≡ n.currency)
      × (d ≡ record { amount = m.amount -ℤ n.amount; currency = m.currency })
sub_ok m n d hm hn h = (
  ground (arith, sub_lem m n hm hn, -ℤ_parts m.amount n.amount),
  eq_of_same m.currency n.currency (ground (arith, sub_lem m n hm hn)),
  ground (arith, sub_lem m n hm hn),
)

-- What a sum that did not raise is.
pub add_ok :
    (m n s : Money)
    → IsMoney m
    → IsMoney n
    → add m n ≡ ok s
    → IsMoney s
      × (m.currency ≡ n.currency)
      × (s ≡ record { amount = m.amount +ℤ n.amount; currency = m.currency })
add_ok m n s hm hn h = (
  ground (arith, add_lem m n hm hn, +ℤ_parts m.amount n.amount),
  eq_of_same m.currency n.currency (ground (arith, add_lem m n hm hn)),
  ground (arith, add_lem m n hm hn),
)

-- Adding back what was subtracted gives the first value again.
add-sub : (m n d : Money) → IsMoney m → IsMoney n → sub m n ≡ ok d → IsMoney d × (add d n ≡ ok m)
add-sub m n d hm hn h =
    let eq = sub_lem m n hm hn in
    let made : IsMoney d = ground (arith, eq, -ℤ_parts m.amount n.amount) in
    (made, ground (arith, eq, add_lem d n made hn, back))
  where
    back : m.amount -ℤ n.amount +ℤ n.amount ≡ m.amount
    back = omega int_laws

-- A subtraction succeeds exactly when `m >= n` holds, in one currency.
sub-ge :
    (m n : Money) → IsMoney m → IsMoney n → (ge m n ≡ ok true) ↔ ((d : Money) × (sub m n ≡ ok d))
unfolding ge
sub-ge m n hm hn = (
  λ h. (
    record { amount = m.amount -ℤ n.amount; currency = m.currency },
    ground (arith, sub_lem m n hm hn),
  ),
  λ p. ground (arith, sub_lem m n hm hn, p.1),
)
