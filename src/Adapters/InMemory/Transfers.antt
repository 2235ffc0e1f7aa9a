-- ===== src/Adapters/InMemory/Transfers.antt =====
-- What `initiate` guarantees over the in-memory adapters.
use banking_transaction_syst.Prelude.{ℕ, ◌≡◌, ◌≢◌, false, some, none, map, List, [], ◌∷◌, ◌++◌}
use banking_transaction_syst.Prelude.Tests.{nat_eq, string_eq}
use banking_transaction_syst.Prelude.Dict.{lookup}
use banking_transaction_syst.Domain.Enums.CurrencyEnum.{Currency}
use banking_transaction_syst.Domain.Enums.AccountStatusEnum.{active}
use banking_transaction_syst.Domain.Amount.{Money}
use banking_transaction_syst.Domain.Money.{decimal, money, add, sub, is_zero}
use banking_transaction_syst.Domain.Exceptions.{ok}
use banking_transaction_syst.Domain.Money.Rounding.{IsMoney, money-IsMoney}
use banking_transaction_syst.Domain.Money.Arithmetic.{sub_ok, add_ok}
use banking_transaction_syst.Prelude.Int.{◌+ℤ◌, ◌-ℤ◌, int_laws}
use banking_transaction_syst.Domain.Events.{DomainEvent, event_type}
use banking_transaction_syst.Application.Runtime.{Env}
use banking_transaction_syst.Application.Dtos.{TransferCommand}
use banking_transaction_syst.Application.TransferService.{parse_currency}
use banking_transaction_syst.Adapters.InMemory.{MemWorld, holds, set_committed}
use banking_transaction_syst.Adapters.InMemory.Success.{service, service_new, after_lookup}
use banking_transaction_syst.Adapters.InMemory.Completion.{
  Transferred, after_lookup_transfers, after_lookup_publishes,
}

module _ (env : Env) (cmd : TransferCommand) (c : Currency) (m x y : Money) (w : MemWorld) (s r : ℕ)
    (new_key : lookup cmd.idempotency_key w.store.by_idempotency ≡ none)
    (known : parse_currency cmd.currency ≡ ok c) (rounded : money (decimal cmd.amount) c ≡ ok m)
    (positive : is_zero m ≡ false) (distinct : cmd.from_account_id ≢ cmd.to_account_id)
    (sender_free : holds cmd.from_account_id w.locks ≡ false)
    (receiver_free : holds cmd.to_account_id w.locks ≡ false)
    (sender_known : lookup cmd.from_account_id w.store.accounts ≡ some s)
    (receiver_known : lookup cmd.to_account_id w.store.accounts ≡ some r) (other : s ≢ r)
    (sender_active : (w.accounts s).status ≡ active)
    (receiver_active : (w.accounts r).status ≡ active)
    (covered : sub (w.accounts s).balance m ≡ ok x)
    (summed : add (w.accounts r).balance m ≡ ok y) where
  -- A new key, a currency and an amount that parse, two different accounts that are active and not
  -- locked, a positive amount that the sender covers and the sum within the bound: the answer is
  -- the completed transaction, the balances are the difference and the sum, no other account and
  -- no other transaction changes, the transaction is found by its id and its key, and the locks
  -- are as before.
  pub transfer_succeeds :
      let (answer, w') = service env cmd w in Transferred cmd s r x y w w' answer
  transfer_succeeds = rw (service_new env cmd w new_key) (record {
    answered = made.answered;
    status = made.status;
    sender = made.sender;
    receiver = made.receiver;
    others = made.others;
    kept = made.kept;
    by_id = made.by_id;
    by_key = made.by_key;
    sender_active = made.sender_active;
    receiver_active = made.receiver_active;
    index = made.index;
    unlocked = made.unlocked;
  })
    where
      made :
          let (answer, w') = after_lookup env cmd (set_committed false w) in
          Transferred cmd s r x y (set_committed false w) w' answer
      made =
          after_lookup_transfers env cmd c m x y (set_committed false w) s r known rounded positive
            distinct sender_free receiver_free sender_known receiver_known other sender_active
            receiver_active covered summed

  -- A new key, a currency and an amount that parse, two different accounts that are active and not
  -- locked, a positive amount that the sender covers and a sum within the bound,
  -- and two balances that are Money values: the balances after the transfer sum to what they summed
  -- to before it.
  pub transfer_conserves :
      IsMoney (w.accounts s).balance
      → IsMoney (w.accounts r).balance
      → let (answer, w') = service env cmd w in
        (w'.accounts s).balance.amount +ℤ (w'.accounts r).balance.amount
        ≡ (w.accounts s).balance.amount +ℤ (w.accounts r).balance.amount
  transfer_conserves hs hr =
      let hm = (money-IsMoney (decimal cmd.amount) c m rounded).0 in
      let taken = (sub_ok (w.accounts s).balance m x hs hm covered).2 in
      let given = (add_ok (w.accounts r).balance m y hr hm summed).2 in
      rw (transfer_succeeds.sender, transfer_succeeds.receiver, taken, given) moved
    where
      moved :
          (w.accounts s).balance.amount -ℤ m.amount +ℤ ((w.accounts r).balance.amount +ℤ m.amount)
          ≡ (w.accounts s).balance.amount +ℤ (w.accounts r).balance.amount
      moved = omega int_laws

  -- A new key, a currency and an amount that parse, two different accounts that are active and not
  -- locked, a positive amount that the sender covers and a sum within the bound,
  -- and no event pending on either account: the bus receives the debit,
  -- the credit, and the start, the processing and the completion of the transaction, in this order,
  -- and none of the three objects has an event left.
  pub transfer_publishes :
      (w.accounts s).domain_events ≡ []
      → (w.accounts r).domain_events ≡ []
      → let (answer, w') = service env cmd w in
        (es : List DomainEvent) × (w'.published ≡ w.published ++ es)
        × (map event_type es
            ≡ "BalanceDebited" ∷ "BalanceCredited" ∷ "TransactionInitiated"
              ∷ "TransactionProcessing" ∷ "TransactionCompleted" ∷ [])
        × ((w'.accounts s).domain_events ≡ [])
        × ((w'.accounts r).domain_events ≡ [])
        × ((w'.transactions w.next).domain_events ≡ [])
  transfer_publishes hs hr = rw (service_new env cmd w new_key) (
      after_lookup_publishes env cmd c m x y (set_committed false w) s r known rounded positive
        distinct sender_free receiver_free sender_known receiver_known other sender_active
        receiver_active covered summed hs hr)
