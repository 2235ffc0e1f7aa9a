-- ===== src/Domain/Money/Rounding.antt =====
-- Rounding to hundredths and the constructor of `Money` (`__post_init__`).
use native.Mathlib.Nat.{pow-suc}
use banking_transaction_syst.Prelude.{
  ℕ, zero, suc, ◌+◌, ◌-◌, ◌*◌, ◌/◌, ◌^◌, ◌≤◌, ◌<◌, ◌≡◌, inl, inr, some, none, arith,
}
use banking_transaction_syst.Prelude.Tests.{Option-cases}
use banking_transaction_syst.Prelude.Int.{ℤ, pos, negsuc, abs, ◌≤ℤ◌}
use banking_transaction_syst.Domain.Enums.CurrencyEnum.{Currency}
use banking_transaction_syst.Domain.Amount.{
  Decimal, finite, hundredths, coefficient_bound, quantize, Money,
}
use banking_transaction_syst.Domain.Exceptions.{ok}
use banking_transaction_syst.Domain.Money.{RawAmount, decimal, other, to_decimal, check_sign, money}

-- What the constructor establishes.
pub record IsMoney (m : Money) : Type 0 where
  pub not_negative : pos 0 ≤ℤ m.amount
  pub in_context : abs m.amount < coefficient_bound

pub pow_pos : (k : ℕ) → 0 < 10 ^ k
pow_pos zero = omega arith
pow_pos (suc k) = rw pow-suc (omega (arith, pow_pos k))

pub div_bounds : (a d : ℕ) → 0 < d → (d * (a / d) ≤ a) × (a < d * (a / d + 1))
div_bounds a d h = grind arith

pub quantize-hundredths : (n : ℤ) → abs n < coefficient_bound → quantize (hundredths n) ≡ some n
unfolding quantize
quantize-hundredths n h = ground arith

check_sign-IsMoney :
    (c : Currency) (n : ℤ) (m : Money)
    → abs n < coefficient_bound
    → check_sign c n ≡ ok m
    → IsMoney m × (m.currency ≡ c)
unfolding check_sign
check_sign-IsMoney c n m h e = ground arith

quantize-lt : (d : Decimal) (n : ℤ) → quantize d ≡ some n → abs n < coefficient_bound
unfolding quantize
quantize-lt d n h = ground arith

after_quantize :
    (d : Decimal) (c : Currency) (m : Money)
    → money (decimal d) c ≡ ok m
    → IsMoney m × (m.currency ≡ c)
unfolding money to_decimal
after_quantize d c m h = elim (Option-cases (quantize d)) [
  | inl e ↦ absurd (cc (rw e at h))
  | inr (n, e) ↦ check_sign-IsMoney c n m (quantize-lt d n e) (rw e at h)
]

-- The result of the constructor is a Money of the given currency, whatever it was given: not
-- negative, with 28 digits at most.
pub money-IsMoney :
    (raw : RawAmount) (c : Currency) (m : Money) → money raw c ≡ ok m → IsMoney m × (m.currency ≡ c)
unfolding money to_decimal
money-IsMoney (decimal d) c m h = after_quantize d c m h
money-IsMoney (other shown none) c m h = absurd (cc h)
money-IsMoney (other shown (some d)) c m h = after_quantize d c m h

div_small : (a d : ℕ) → a < d → a / d ≡ 0
div_small a d h = grind arith

module _ (z : ℤ) (p : ℕ) (n : ℤ) (done : quantize (finite z p) ≡ some n) where
  -- Up to two places nothing is rounded.
  pub quantize_exact : p ≤ 2 → abs n ≡ abs z * 10 ^ (2 - p)
  unfolding quantize
  quantize_exact h = ground arith

  rounded :
      2 < p
      → let d = 10 ^ (p - 2) in
        (2 * d * abs n ≤ 2 * abs z + d) × (2 * abs z + d < 2 * d * (abs n + 1))
  unfolding quantize
  rounded h =
      ground (arith, div_bounds (2 * abs z + 10 ^ (p - 2)) (2 * 10 ^ (p - 2)), pow_pos (p - 2))

  quantize_sign : (pos 0 ≤ℤ z → pos 0 ≤ℤ n) × (z ≤ℤ pos 0 → n ≤ℤ pos 0)
  unfolding quantize
  quantize_sign =
      ground (arith, pow_pos (p - 2), div_small (2 * abs z + 10 ^ (p - 2)) (2 * 10 ^ (p - 2)))

  -- From three places on, with `d` units to a hundredth: the magnitude of the result is the nearest,
  -- the larger one of two that are equally near, and the result has the sign of the amount: it is
  -- not negative if the amount is not negative, and not positive if the amount is not positive.
  pub quantize_nearest :
      2 < p
      → let d = 10 ^ (p - 2) in
        (2 * d * abs n ≤ 2 * abs z + d)
        × (2 * abs z + d < 2 * d * (abs n + 1))
        × (pos 0 ≤ℤ z → pos 0 ≤ℤ n)
        × (z ≤ℤ pos 0 → n ≤ℤ pos 0)
  quantize_nearest h =
      let (low, high) = rounded h in let (up, down) = quantize_sign in (low, high, up, down)

-- A negative amount nearer to zero than half a hundredth is taken as zero.
money_small_negative :
    (k p : ℕ) (c : Currency)
    → 2 < p
    → 2 * suc k < 10 ^ (p - 2)
    → money (decimal (finite (negsuc k) p)) c ≡ ok (record { amount = pos 0; currency = c })
unfolding money to_decimal quantize check_sign
money_small_negative k p c h small =
    ground (arith, div_small (2 * suc k + 10 ^ (p - 2)) (2 * 10 ^ (p - 2)), pow_pos (p - 2))
