-- ===== src/Domain/Account/Lifecycle.antt =====
-- Histories of one account: calls of its methods, of which some raise and change nothing.
use banking_transaction_syst.Prelude.{
  ℕ, String, ◌≡◌, refl, inl, inr, List, [], ◌∷◌, Option, some, none, arith,
}
use banking_transaction_syst.Prelude.Int.{pos}
use banking_transaction_syst.Domain.Enums.CurrencyEnum
use banking_transaction_syst.Domain.Enums.CurrencyEnum.{Currency, eq_of_same, same_refl}
use banking_transaction_syst.Domain.Enums.AccountStatusEnum.{active, closed}
use banking_transaction_syst.Domain.Amount.{Money, finite, quantize}
use banking_transaction_syst.Domain.Money.{
  decimal, to_decimal, check_sign, money, add, sub, is_zero,
}
use banking_transaction_syst.Domain.Money.Rounding.{IsMoney}
use banking_transaction_syst.Domain.Money.Arithmetic.{sub_ok, add_ok}
use banking_transaction_syst.Domain.Exceptions.{Result, ok, err, account, Result-cases}
use banking_transaction_syst.Domain.Exceptions.Classes
use banking_transaction_syst.Domain.Events.{of_account, account_created}
use banking_transaction_syst.Domain.Base.{Draw, new_root}
use banking_transaction_syst.Domain.Account.{
  Account, debited, credited, debit, credit, freeze, unfreeze, close, create,
}

-- A call of a method with its arguments.
pub data Call : Type 0 where
  debits credits : Money → ℕ → Call
  freezes : String → Call
  unfreezes closes : Call

unfoldable pub apply : Draw → Call → Account → Result Account
apply d (debits amount tx) = debit d amount tx
apply d (credits amount tx) = credit d amount tx
apply d (freezes reason) = freeze d reason
apply d unfreezes = unfreeze d
apply d closes = close d

-- The amount of a call is a Money that the constructor made.
abbrev pub IsCall : Call → Type 0
IsCall (debits amount _) = IsMoney amount
IsCall (credits amount _) = IsMoney amount
IsCall _ = Unit {0}

-- The balance is a Money, and a closed account is empty.
pub record IsSound (a : Account) : Type 0 where
  pub money : IsMoney a.balance
  pub emptied : a.status ≡ closed → a.balance.amount ≡ pos 0

-- What a call of `debit` that did not raise has done.
pub debit_ok :
    (d : Draw) (m : Money) (tx : ℕ) (a b : Account)
    → debit d m tx a ≡ ok b
    → (rest : Money) × (sub a.balance m ≡ ok rest)
      × (a.status ≡ active)
      × (b ≡ debited d m tx rest a)
unfolding debit
debit_ok d m tx a b h = elim (Result-cases (sub a.balance m)) [
  | inl (rest, e) ↦ (rest, e, ground arith, ground arith)
  | inr (x, e) ↦ absurd (ground arith)
]

pub credit_ok :
    (d : Draw) (m : Money) (tx : ℕ) (a b : Account)
    → credit d m tx a ≡ ok b
    → (sum : Money) × (add a.balance m ≡ ok sum) × (a.status ≡ active) × (b ≡ credited d m tx sum a)
unfolding credit
credit_ok d m tx a b h = elim (Result-cases (add a.balance m)) [
  | inl (sum, e) ↦ (sum, e, ground arith, ground arith)
  | inr (x, e) ↦ absurd (ground arith)
]

-- An active account accepts what its balance allows.
pub debit_active :
    (d : Draw) (m : Money) (tx : ℕ) (a : Account) (rest : Money)
    → a.status ≡ active
    → sub a.balance m ≡ ok rest
    → debit d m tx a ≡ ok (debited d m tx rest a)
unfolding debit
debit_active d m tx a rest h e = ground arith

pub credit_active :
    (d : Draw) (m : Money) (tx : ℕ) (a : Account) (sum : Money)
    → a.status ≡ active
    → add a.balance m ≡ ok sum
    → credit d m tx a ≡ ok (credited d m tx sum a)
unfolding credit
credit_active d m tx a sum h e = ground arith

pub debit-IsSound :
    (d : Draw) (m : Money) (tx : ℕ) (a b : Account)
    → IsSound a
    → IsMoney m
    → debit d m tx a ≡ ok b
    → IsSound b
debit-IsSound d m tx a b s hm h =
    let (rest, e, st, eq) = debit_ok d m tx a b h in
    ground (arith, sub_ok a.balance m rest s.money hm e)

pub credit-IsSound :
    (d : Draw) (m : Money) (tx : ℕ) (a b : Account)
    → IsSound a
    → IsMoney m
    → credit d m tx a ≡ ok b
    → IsSound b
credit-IsSound d m tx a b s hm h =
    let (sum, e, st, eq) = credit_ok d m tx a b h in
    ground (arith, add_ok a.balance m sum s.money hm e)

-- Every method keeps an account sound.
pub apply-IsSound :
    (d : Draw) (c : Call) (a b : Account) → IsSound a → IsCall c → apply d c a ≡ ok b → IsSound b
unfolding apply freeze unfreeze close is_zero
apply-IsSound d (debits m tx) a b s hm h = debit-IsSound d m tx a b s hm h
apply-IsSound d (credits m tx) a b s hm h = credit-IsSound d m tx a b s hm h
apply-IsSound d (freezes reason) a b s hm h = ground arith
apply-IsSound d unfreezes a b s hm h = ground arith
apply-IsSound d closes a b s hm h = ground arith

-- A closed account refuses every call.
pub apply-closed :
    (d : Draw) (c : Call) (a : Account)
    → a.status ≡ closed
    → apply d c a ≡ err (account (Classes.AccountError.account_closed a.id))
unfolding apply debit credit freeze unfreeze close
apply-closed d (debits m tx) a h = ground arith
apply-closed d (credits m tx) a h = ground arith
apply-closed d (freezes reason) a h = ground arith
apply-closed d unfreezes a h = ground arith
apply-closed d closes a h = ground arith

-- Calls in a row. One that raises leaves the account as it is.
unfoldable pub history : List (Draw × Call) → Account → Account
history [] a = a
history ((d, c) ∷ calls) a = elim (apply d c a) [ ok b ↦ history calls b | err _ ↦ history calls a ]

abbrev pub AreCalls : List (Draw × Call) → Type 0
AreCalls [] = Unit
AreCalls ((_, c) ∷ calls) = IsCall c × AreCalls calls

-- After any calls, raising or not, a sound account is sound.
pub history-IsSound :
    (calls : List (Draw × Call)) (a : Account)
    → IsSound a
    → AreCalls calls
    → IsSound (history calls a)
unfolding history
history-IsSound [] a s hs = s
history-IsSound ((d, c) ∷ calls) a s hs = elim (Result-cases (apply d c a)) [
  | inl (b, e) ↦ rw (e, history) (history-IsSound calls b (apply-IsSound d c a b s hs.0 e) hs.1)
  | inr (x, e) ↦ rw (e, history) (history-IsSound calls a s hs.1)
]

-- Once closed, an account stays exactly as it is.
history-closed :
    (calls : List (Draw × Call)) (a : Account) → a.status ≡ closed → history calls a ≡ a
unfolding history
history-closed [] a h = refl
history-closed ((d, c) ∷ calls) a h = rw (apply-closed d c a h, history) (history-closed calls a h)

zero_money :
    (c : Currency)
    → money (decimal (finite (pos 0) 0)) c ≡ ok (record { amount = pos 0; currency = c })
unfolding money to_decimal check_sign quantize
zero_money c = refl

-- A new account is sound, active, and has recorded its creation alone.
pub create_lem :
    (d : Draw) (owner : ℕ) (c : Currency) (m : Option Money) (a : Account)
    → ((x : Money) → m ≡ some x → IsMoney x)
    → create d owner c m ≡ ok a
    → IsSound a
      × (a.status ≡ active)
      × (a.balance.currency ≡ c)
      × (a.domain_events
          ≡ record {
            event_id = d.event_id;
            occurred_at = d.occurred_at;
            body = of_account (account_created a.id owner (CurrencyEnum.value c) a.balance.amount);
          }
            ∷ [])
unfolding create new_root
create_lem d owner c none a hm h = let z = zero_money c in ground (arith, z)
create_lem d owner c (some m) a hm h = ground (arith, hm m refl, eq_of_same m.currency c)

-- An account is made for every opening balance in its currency.
pub create_total :
    (d : Draw) (owner : ℕ) (c : Currency) (m : Money)
    → m.currency ≡ c
    → (a : Account) × (create d owner c (some m) ≡ ok a)
      × (a.id ≡ d.uuid)
      × (a.owner_id ≡ owner)
      × (a.balance ≡ m)
      × (a.status ≡ active)
unfolding create new_root
create_total d owner c m h = elim (Result-cases (create d owner c (some m))) [
  | inl (a, e) ↦ (
    a,
    e,
    ground (arith, h, same_refl c),
    ground (arith, h, same_refl c),
    ground (arith, h, same_refl c),
    ground (arith, h, same_refl c),
  )
  | inr (x, e) ↦ absurd (ground (arith, h, same_refl c))
]
