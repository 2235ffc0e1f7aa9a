-- ===== src/Adapters/InMemory/Accounts.antt =====
-- `AccountService` over the in-memory adapters.
use banking_transaction_syst.Prelude.{ℕ, suc, ◌≡◌, ◌≢◌, refl, ap, ◌∙◌, true, some, arith}
use banking_transaction_syst.Prelude.Tests.{nat_eq, nat_beq_iff}
use banking_transaction_syst.Prelude.Dict.{lookup, insert, lookup-insert, update, update_self}
use banking_transaction_syst.Domain.Enums.CurrencyEnum.{Currency}
use banking_transaction_syst.Domain.Enums.AccountStatusEnum.{active}
use banking_transaction_syst.Domain.Amount.{Money}
use banking_transaction_syst.Domain.Money.{decimal, money}
use banking_transaction_syst.Domain.Money.Rounding.{money-IsMoney}
use banking_transaction_syst.Domain.Exceptions.{Result, ok}
use banking_transaction_syst.Domain.Account.{Account, create}
use banking_transaction_syst.Domain.Account.Lifecycle.{create_total}
use banking_transaction_syst.Application.Runtime.{Env, lift, make_account}
use banking_transaction_syst.Application.Runtime.Steps.{bind_ok, make_account_ok}
use banking_transaction_syst.Application.Dtos.{CreateAccountCommand, AccountDto, account_dto}
use banking_transaction_syst.Application.TransferService.{parse_currency}
use banking_transaction_syst.Application.AccountService.{create_account, account_found, get}
use banking_transaction_syst.Adapters.InMemory.{MemWorld, account_get, account_save, unit_of_work}

-- A new account, as it is made, stored and answered.
pub record Created (env : Env) (cmd : CreateAccountCommand) (m : Money) (w w' : MemWorld)
    (answer : Result AccountDto) : Type 0 where
  pub answered : answer ≡ ok (account_dto (w'.accounts w.next))
  pub owner : (w'.accounts w.next).owner_id ≡ cmd.owner_id
  pub balance : (w'.accounts w.next).balance ≡ m
  pub status : (w'.accounts w.next).status ≡ active
  pub stored : lookup (w'.accounts w.next).id w'.store.accounts ≡ some w.next
  pub others : (j : ℕ) → j ≢ w.next → w'.accounts j ≡ w.accounts j
  pub committed : w'.store.committed ≡ true
  pub readable : (get env unit_of_work (w'.accounts w.next).id w').0 ≡ answer

module _ (env : Env) (cmd : CreateAccountCommand) (c : Currency) (m : Money) (w : MemWorld)
    (known : parse_currency cmd.currency ≡ ok c)
    (rounded : money (decimal cmd.initial_balance) c ≡ ok m) where
  module _ (a : Account) (made : create (env.supply w.draws) cmd.owner_id c (some m) ≡ ok a) where
    abbrev after : MemWorld
    after = record w {
      accounts = update w.accounts w.next a;
      next = suc w.next;
      draws = suc w.draws;
      store = record w.store { accounts = insert a.id w.next w.store.accounts; committed = true };
    }

    here : after.accounts w.next ≡ a
    here = update_self w.accounts w.next a

    created :
        create_account env unit_of_work cmd w ≡ (ok (account_dto (after.accounts w.next)), after)
    unfolding create_account account_save
    created =
        bind_ok (lift (parse_currency cmd.currency)) _ (ap (λ r. (r, w)) known)
        ∙ (bind_ok (lift (money (decimal cmd.initial_balance) c)) _ (ap (λ r. (r, w)) rounded)
            ∙ (bind_ok (make_account env (λ d. create d cmd.owner_id c (some m))) _
                  (make_account_ok env w (λ d. create d cmd.owner_id c (some m)) a made)
                ∙ rw here refl))

    found : (get env unit_of_work a.id after).0 ≡ ok (account_dto (after.accounts w.next))
    unfolding get account_get account_found
    found = rw (stored, account_found) refl
      where
        stored : lookup a.id after.store.accounts ≡ some w.next
        stored = rw lookup-insert (ground (arith, nat_beq_iff a.id a.id))

    reported :
        a.owner_id ≡ cmd.owner_id
        → a.balance ≡ m
        → a.status ≡ active
        → Created env cmd m w after (ok (account_dto (after.accounts w.next)))
    reported ho hb hs = record {
      answered = refl;
      owner = ap (λ (x : Account). x.owner_id) here ∙ ho;
      balance = ap (λ (x : Account). x.balance) here ∙ hb;
      status = ap (λ (x : Account). x.status) here ∙ hs;
      stored = rw here (rw lookup-insert (ground (arith, nat_beq_iff a.id a.id)));
      others = λ j h. ground (arith, nat_beq_iff w.next j);
      committed = refl;
      readable = ap (λ (x : Account). (get env unit_of_work x.id after).0) here ∙ found;
    }

  -- A currency and an opening balance that parse: the account is active with that balance and that
  -- owner, it is stored and committed, no other account object changes, and `get` by its id gives
  -- the answer of `create_account` again.
  pub create_account-Created :
      let (answer, w') = create_account env unit_of_work cmd w in Created env cmd m w w' answer
  create_account-Created =
      let (a, made, id, ho, hb, hs) =
        create_total (env.supply w.draws) cmd.owner_id c m
          (money-IsMoney (decimal cmd.initial_balance) c m rounded).1 in
      rw (created a made) (reported a made ho hb hs)
