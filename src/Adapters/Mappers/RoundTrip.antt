-- ===== src/Adapters/Mappers/RoundTrip.antt =====
-- What of an aggregate survives the database.
use banking_transaction_syst.Prelude.{◌<◌, ◌^◌, ◌≡◌, refl, false, List, some, arith}
use banking_transaction_syst.Prelude.Int.{ℤ, pos, abs, ◌≤ℤ◌}
use banking_transaction_syst.Domain.Enums.CurrencyEnum
use banking_transaction_syst.Domain.Enums.AccountStatusEnum
use banking_transaction_syst.Domain.Enums.TransactionStatusEnum
use banking_transaction_syst.Domain.Enums.TransactionTypeEnum
use banking_transaction_syst.Domain.Enums.CurrencyEnum.{Currency}
use banking_transaction_syst.Domain.Amount.{Decimal, Money, hundredths, quantize}
use banking_transaction_syst.Domain.Money.{decimal, money, to_decimal, check_sign}
use banking_transaction_syst.Domain.Money.Rounding.{IsMoney}
use banking_transaction_syst.Domain.Exceptions.{ok}
use banking_transaction_syst.Domain.Base.{Draw}
use banking_transaction_syst.Domain.Account.{Account}
use banking_transaction_syst.Domain.Account as Entity
use banking_transaction_syst.Domain.Account.Lifecycle as Calls
use banking_transaction_syst.Domain.Account.Lifecycle.{IsSound}
use banking_transaction_syst.Domain.Account.Identity.{SameIdentity, history-SameIdentity}
use banking_transaction_syst.Domain.Transaction.Lifecycle as Steps
use banking_transaction_syst.Domain.Transaction.Histories.{history}
use banking_transaction_syst.Domain.Transaction.Identity.{SameTransfer, history-SameTransfer}
use banking_transaction_syst.Domain.Transaction.{Transaction, needs_rollback}
use banking_transaction_syst.Domain.Transaction as Tx
use banking_transaction_syst.Application.TransferService.{parse_currency}
use banking_transaction_syst.Application.TransferService.Publication.{cleared, cleared_tx}
use banking_transaction_syst.Adapters.Mappers.AccountMapper
use banking_transaction_syst.Adapters.Mappers.AccountMapper.{AccountRow}
use banking_transaction_syst.Adapters.Mappers.TransactionMapper
use banking_transaction_syst.Adapters.Mappers.TransactionMapper.{TransactionRow}

-- `numeric` is what the column Numeric(19, 4) gives back for a number that was stored in it: below
-- 17 digits in hundredths, a number of the same value.
module _ (numeric : Decimal → Decimal)
    (numeric_value : (n : ℤ) → abs n < 10 ^ 17 → quantize (numeric (hundredths n)) ≡ some n) where
  abbrev pub stored : AccountRow → AccountRow
  stored orm = record orm { balance = numeric orm.balance }

  abbrev pub stored_tx : TransactionRow → TransactionRow
  stored_tx orm = record orm { amount = numeric orm.amount }

  money_again :
      (m : Money)
      → pos 0 ≤ℤ m.amount
      → abs m.amount < 10 ^ 17
      → money (decimal (numeric (hundredths m.amount))) m.currency ≡ ok m
  unfolding money to_decimal check_sign
  money_again m h small = rw (numeric_value m.amount small) (ground arith)

  currency_again : (c : Currency) → parse_currency (CurrencyEnum.value c) ≡ ok c
  unfolding parse_currency
  currency_again c = rw CurrencyEnum.of_value-value refl

  -- A row with the changing columns of `b` over the identity of `b` is read as `b`.
  read_row :
      (b : Account) (orm : AccountRow)
      → IsMoney b.balance
      → abs b.balance.amount < 10 ^ 17
      → orm ≡ AccountMapper.to_new_orm b
      → AccountMapper.to_domain (stored orm) ≡ ok (cleared b)
  unfolding AccountMapper.to_domain AccountMapper.to_new_orm Entity.reconstitute
  read_row b orm h small e =
      rw
        (
          e,
          currency_again b.balance.currency,
          money_again b.balance h.not_negative small,
          AccountStatusEnum.of_value-value b.status,
        )
        refl

  read_tx_row :
      (u : Transaction) (orm : TransactionRow)
      → IsMoney u.amount
      → abs u.amount.amount < 10 ^ 17
      → orm ≡ stored_tx (TransactionMapper.to_new_orm u)
      → TransactionMapper.to_domain orm ≡ ok (record (cleared_tx u) { rollback_required = false })
  unfolding TransactionMapper.to_domain TransactionMapper.to_new_orm Tx.reconstitute
  read_tx_row u orm h small e =
      rw
        (
          e,
          currency_again u.amount.currency,
          money_again u.amount h.not_negative small,
          TransactionTypeEnum.of_value-value u.transaction_type,
          TransactionStatusEnum.of_value-value u.status,
        )
        refl

  updated_row :
      (a b : Account)
      → SameIdentity a b
      → AccountMapper.update_orm (stored (AccountMapper.to_new_orm a)) b
        ≡ AccountMapper.to_new_orm b
  unfolding AccountMapper.to_new_orm AccountMapper.update_orm
  updated_row a b same = rw (same.id, same.owner, same.number, same.created) refl

  updated_tx_row :
      (t u : Transaction)
      → SameTransfer t u
      → TransactionMapper.update_orm (stored_tx (TransactionMapper.to_new_orm t)) u
        ≡ stored_tx (TransactionMapper.to_new_orm u)
  unfolding TransactionMapper.to_new_orm TransactionMapper.update_orm
  updated_tx_row t u same =
      rw (same.id, same.sender, same.receiver, same.amount, same.type, same.key, same.created) refl

  -- An account that is inserted, changed by any calls, updated in its row and read again is the
  -- account after the calls, with no event pending, if it was sound, the amounts of the calls are
  -- Money values, and the new balance has at most 17 digits in hundredths.
  pub account_read_back :
      (calls : List (Draw × Calls.Call)) (a : Account)
      → IsSound a
      → Calls.AreCalls calls
      → abs (Calls.history calls a).balance.amount < 10 ^ 17
      → AccountMapper.to_domain (
          stored (
            AccountMapper.update_orm (stored (AccountMapper.to_new_orm a)) (Calls.history calls a)))
        ≡ ok (cleared (Calls.history calls a))
  account_read_back calls a sound valid small =
      read_row (Calls.history calls a) _ (Calls.history-IsSound calls a sound valid).money small
        (updated_row a (Calls.history calls a) (history-SameIdentity calls a))

  -- A transaction that is inserted, changed by any calls, updated in its row and read again is the
  -- transaction after the calls, with no event pending, but with `rollback_required` lost, so that
  -- `needs_rollback` is false; its amount is a Money of at most 17 digits in hundredths.
  pub transaction_read_back :
      (calls : List (Draw × Steps.Call)) (t : Transaction)
      → IsMoney t.amount
      → abs t.amount.amount < 10 ^ 17
      → (u : Transaction) × (TransactionMapper.to_domain (
            TransactionMapper.update_orm
              (stored_tx (TransactionMapper.to_new_orm t))
              (history calls t))
          ≡ ok u)
        × (u ≡ record (cleared_tx (history calls t)) { rollback_required = false })
        × (needs_rollback u ≡ false)
  unfolding needs_rollback
  transaction_read_back calls t valid small =
      let same = history-SameTransfer calls t in
      (
        _,
        read_tx_row (history calls t) _ (rw same.amount valid) (rw same.amount small)
            (updated_tx_row t (history calls t) same),
        refl,
        ground arith,
      )
