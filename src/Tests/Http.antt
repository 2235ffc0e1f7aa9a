-- ===== src/Tests/Http.antt =====
-- The theorems about the transaction routes, the dev token, the order of locks and the columns,
-- applied to small inputs.
use banking_transaction_syst.Prelude.{ℕ, ◌≡◌, refl, Option, some, none, List, [], ◌∷◌}
use banking_transaction_syst.Prelude.Tests.{nat_eq, string_eq}
use banking_transaction_syst.Domain.Enums.CurrencyEnum
use banking_transaction_syst.Domain.Exceptions.{account}
use banking_transaction_syst.Domain.Exceptions.Classes
use banking_transaction_syst.Application.TransferService.{failure_code}
use banking_transaction_syst.Application.TransferService.LockOrder.{Chain, no_ring}
use banking_transaction_syst.Adapters.Mappers.Columns.{IsCode, failure_code-IsCode}
use banking_transaction_syst.Infrastructure.Settings.{default_settings}
use banking_transaction_syst.Adapters.Http.Auth.{resolved}
use banking_transaction_syst.Adapters.Http.DevToken.{
  DevTokenResponse, get_dev_token, login, get_dev_token_lem,
}
use banking_transaction_syst.Tests.Data.{command, price}

-- A UUID is written as one character, its number.
abbrev text : ℕ → List ℕ
text id = id ∷ []

abbrev parse : List ℕ → Option ℕ
parse [] = none
parse (c ∷ s) = some c

get_dev_token_lem_example :
    (r : DevTokenResponse) × (get_dev_token text default_settings none 9 ≡ resolved r)
    × (login text parse (λ id. refl) default_settings r
        ≡ resolved (record { user_id = r.user_id; roles = "user" ∷ [] }))
get_dev_token_lem_example = get_dev_token_lem text parse (λ id. refl) default_settings none 9

no_ring_example : ¬ (Chain (command 1 2 price) (command 1 2 price))
no_ring_example = no_ring (command 1 2 price)

failure_code-IsCode_example :
    IsCode (failure_code (account (Classes.AccountError.account_frozen 2)))
failure_code-IsCode_example =
    failure_code-IsCode (account (Classes.AccountError.account_frozen 2))
      (λ name t h. absurd (cc h))
