-- ===== src/Tests/Data.antt =====
-- A process with two accounts, Alice's with 100.00 EUR and Bob's with 5.00 EUR, and commands.
use banking_transaction_syst.Prelude.{ℕ, ◌+◌, [], ◌∷◌, false}
use banking_transaction_syst.Prelude.Tests.{nat_eq, ◌==◌, if◌then◌else◌}
use banking_transaction_syst.Prelude.Int.{pos}
use banking_transaction_syst.Prelude.Text.{show}
use banking_transaction_syst.Domain.Enums.CurrencyEnum.{eur}
use banking_transaction_syst.Domain.Enums.AccountStatusEnum.{AccountStatus, active, frozen, closed}
use banking_transaction_syst.Domain.Enums.TransactionTypeEnum.{transfer}
use banking_transaction_syst.Domain.Amount.{Money, Decimal, finite}
use banking_transaction_syst.Domain.Base.{Draw}
use banking_transaction_syst.Domain.Account.{Account}
use banking_transaction_syst.Domain.Transaction.{Transaction, initiated}
use banking_transaction_syst.Application.Runtime.{Env}
use banking_transaction_syst.Application.Dtos.{TransferCommand, CreateAccountCommand}
use banking_transaction_syst.Adapters.InMemory.{MemWorld}

abbrev pub draw : ℕ → Draw
draw n = record {
  uuid = 100 + n;
  now = n;
  later = n;
  event_id = 500 + n;
  occurred_at = n;
  digits = "0000111122223333";
}

abbrev pub env : Env
env = record { supply = draw; uuid_text = show }

abbrev pub euros : ℕ → Money
euros cents = record { amount = pos cents; currency = eur }

abbrev pub account_with : ℕ → Money → AccountStatus → Account
account_with id balance status = record {
  root = record { id = id; created_at = 0; updated_at = 0; domain_events = [] };
  owner_id = 40 + id;
  account_number = "DE0000111122223333";
  status = status;
  balance = balance;
}

abbrev pub alice : Account
alice = account_with 1 (euros 10000) active

abbrev pub bob : Account
bob = account_with 2 (euros 500) active

abbrev pub frozen_bob : Account
frozen_bob = account_with 2 (euros 500) frozen

abbrev pub shut : Account
shut = account_with 3 (euros 0) closed

abbrev pub pending_tx : Transaction
pending_tx = initiated (draw 0) 1 2 (euros 2550) "k0" transfer

abbrev pub world_of : Account → Account → MemWorld
world_of a b = record {
  accounts = λ j. if j == 0 then a else b;
  transactions = λ _. pending_tx;
  next = 2;
  store = record {
    accounts = (1, 0) ∷ (2, 1) ∷ [];
    accounts_seen = [];
    transactions = [];
    by_idempotency = [];
    committed = false;
  };
  locks = 77 ∷ [];
  published = [];
  draws = 0;
}

abbrev pub world : MemWorld
world = world_of alice bob

abbrev pub command : ℕ → ℕ → Decimal → TransferCommand
command from_id to_id amount = record {
  from_account_id = from_id;
  to_account_id = to_id;
  amount = amount;
  currency = "EUR";
  idempotency_key = "k1";
}

-- 25.50
abbrev pub price : Decimal
price = finite (pos 255) 1

-- 250.00
abbrev pub fortune : Decimal
fortune = finite (pos 250) 0

abbrev pub opening : CreateAccountCommand
opening = record { owner_id = 9; currency = "EUR"; initial_balance = price }

abbrev pub done_tx : Transaction
done_tx = initiated (draw 0) 1 2 (euros 2550) "k1" transfer

-- A process whose repository holds the transaction of the key "k1" as object 3.
abbrev pub stored_world : MemWorld
stored_world = record world {
  transactions = λ j. if j == 3 then done_tx else pending_tx;
  next = 4;
  store = record world.store { transactions = (100, 3) ∷ []; by_idempotency = ("k1", 100) ∷ [] };
}
