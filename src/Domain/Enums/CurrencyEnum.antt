-- ===== src/Domain/Enums/CurrencyEnum.antt =====
-- `Currency` in src/domain/value_objects/enums.py.
use banking_transaction_syst.Prelude.{
  String, Bool, true, false, Option, none, some, ◌≡◌, refl, arith,
}
use banking_transaction_syst.Prelude.Tests.{◌==◌, string_eq, if◌then◌else◌}

pub data Currency : Type 0 where
  eur usd gbp irr : Currency

unfoldable pub value : Currency → String
value eur = "EUR"
value usd = "USD"
value gbp = "GBP"
value irr = "IRR"

unfoldable pub of_value : String → Option Currency
of_value t =
    if t == "EUR"
    then some eur
    else if t == "USD"
    then some usd
    else if t == "GBP"
    then some gbp
    else if t == "IRR"
    then some irr
    else none

-- Python's `==` of two members.
abbrev pub same : Currency → Currency → Bool
same eur eur = true
same usd usd = true
same gbp gbp = true
same irr irr = true
same _ _ = false

pub same_refl : (c : Currency) → same c c ≡ true
same_refl eur = refl
same_refl _ = refl

pub eq_of_same : (c d : Currency) → same c d ≡ true → c ≡ d
eq_of_same c d h = ground arith

pub of_value-value : (c : Currency) → of_value (value c) ≡ some c
unfolding of_value value
of_value-value eur = refl
of_value-value _ = refl
