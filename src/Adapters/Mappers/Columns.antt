-- ===== src/Adapters/Mappers/Columns.antt =====
-- The failure code in the column that `TransactionORM` declares for it
-- (src/adapters/outbound/persistence/models/transaction.py).
use banking_transaction_syst.Prelude.{
  ℕ, ◌≤◌, String, ◌≡◌, refl, Bool, true, false, ◌&&◌, ◌||◌, Option, none, some, List, [], ◌∷◌,
  arith,
}
use banking_transaction_syst.Prelude.Tests.{leb, ◌==◌, string_eq, if◌then◌else◌}
use banking_transaction_syst.Prelude.Lists.{length}
use banking_transaction_syst.Prelude.Text.{codes, starts_with, upper, remove_all}
use banking_transaction_syst.Domain.Exceptions.{
  Exn, base, account, transaction, value_error, invalid_operation, library, class_name,
}
use banking_transaction_syst.Domain.Exceptions.Classes.{
  resource_not_found, currency_mismatch, concurrency_conflict, business_rule_violation,
  insufficient_funds, account_frozen, account_closed, account_not_empty, invalid_transfer_amount,
  same_account_transfer, already_processing, already_completed, not_failable,
  duplicate_idempotency_key, rollback_error,
}
use banking_transaction_syst.Application.TransferService.{failure_code}
use banking_transaction_syst.Migrations.Schema.{ColumnType, string}
use banking_transaction_syst.Migrations.Models.{Attribute, transaction_orm}

abbrev type_of : String → List Attribute → Option ColumnType
type_of name [] = none
type_of name (a ∷ others) =
    let rest = type_of name others in if a.column.name == name then some a.column.type else rest

-- Every character is a capital letter.
abbrev pub are_capitals : List ℕ → Bool
are_capitals [] = true
are_capitals (c ∷ cs) = leb b'A' c && leb c b'Z' && are_capitals cs

-- Whether the word stands somewhere in the text.
abbrev pub occurs : List ℕ → List ℕ → Bool
occurs word [] = starts_with word []
occurs word (c ∷ cs) = starts_with word (c ∷ cs) || occurs word cs

-- A code as the column takes it: not empty, of capital letters, without the word ERROR, and not
-- longer than the column is.
pub record IsCode (text : List ℕ) : Type 0 where
  pub max_length : ℕ
  pub column : type_of "failure_code" transaction_orm.attributes ≡ some (string max_length)
  pub fits : length text ≤ max_length
  pub not_empty : 1 ≤ length text
  pub capitals : are_capitals text ≡ true
  pub no_error : occurs (codes "ERROR") text ≡ false

abbrev code :
    {text : List ℕ}
    → length text ≤ 64
    → 1 ≤ length text
    → are_capitals text ≡ true
    → occurs (codes "ERROR") text ≡ false
    → IsCode text
code fits not_empty capitals no_error = record {
  max_length = 64;
  column = refl;
  fits = fits;
  not_empty = not_empty;
  capitals = capitals;
  no_error = no_error;
}

-- The failure code of any exception but those of libraries other than `decimal`: it is not empty, has
-- capital letters only and no ERROR in it, and is not longer than the column that `TransactionORM`
-- declares for it.
pub failure_code-IsCode :
    (e : Exn) → ((name text : String) → ¬ (e ≡ library name text)) → IsCode (failure_code e)
unfolding failure_code class_name upper remove_all
failure_code-IsCode (base (resource_not_found _ _)) own = code (omega arith) (omega arith) refl refl
failure_code-IsCode (base (currency_mismatch _ _)) own = code (omega arith) (omega arith) refl refl
failure_code-IsCode (base (concurrency_conflict _)) own = code (omega arith) (omega arith) refl refl
failure_code-IsCode (base business_rule_violation) own = code (omega arith) (omega arith) refl refl
failure_code-IsCode (account (insufficient_funds _ _)) own =
    code (omega arith) (omega arith) refl refl
failure_code-IsCode (account (account_frozen _)) own = code (omega arith) (omega arith) refl refl
failure_code-IsCode (account (account_closed _)) own = code (omega arith) (omega arith) refl refl
failure_code-IsCode (account (account_not_empty _ _)) own =
    code (omega arith) (omega arith) refl refl
failure_code-IsCode (transaction (invalid_transfer_amount _)) own =
    code (omega arith) (omega arith) refl refl
failure_code-IsCode (transaction (same_account_transfer _)) own =
    code (omega arith) (omega arith) refl refl
failure_code-IsCode (transaction (already_processing _ _)) own =
    code (omega arith) (omega arith) refl refl
failure_code-IsCode (transaction (already_completed _ _)) own =
    code (omega arith) (omega arith) refl refl
failure_code-IsCode (transaction (not_failable _ _)) own =
    code (omega arith) (omega arith) refl refl
failure_code-IsCode (transaction (duplicate_idempotency_key _ _)) own =
    code (omega arith) (omega arith) refl refl
failure_code-IsCode (transaction (rollback_error _ _)) own =
    code (omega arith) (omega arith) refl refl
failure_code-IsCode (value_error text) own = code (omega arith) (omega arith) refl refl
failure_code-IsCode invalid_operation own = code (omega arith) (omega arith) refl refl
failure_code-IsCode (library name text) own = absurd (own name text refl)
