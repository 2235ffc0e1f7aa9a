-- ===== src/Domain/Exceptions.antt =====
-- src/domain/exceptions: an exception is a value with the attributes of its class. `Exn` also has
-- the exceptions of Python and of the libraries that the modelled code lets through.
pub mod Classes
pub mod Names
use banking_transaction_syst.Prelude.{
  ℕ, String, Bool, true, false, Option, none, some, ◌≡◌, refl, ◌⊎◌, inl, inr,
}
use Classes.{BaseError, AccountError, TransactionError}
use Names.{
  base_name, account_name, transaction_name, base_message, account_message, transaction_message,
}

pub data Exn : Type 0 where
  base : BaseError → Exn
  account : AccountError → Exn
  transaction : TransactionError → Exn
  value_error : String → Exn
  invalid_operation : Exn
  library : (name text : String) → Exn

pub data Result {ℓ} (A : Type ℓ) : Type ℓ where
  ok : A → Result A
  err : Exn → Result A

pub Result-cases {ℓ} :
    {A : Type ℓ} (r : Result A) → ((a : A) × (r ≡ ok a)) ⊎ ((e : Exn) × (r ≡ err e))
Result-cases (ok a) = inl (a, refl)
Result-cases (err e) = inr (e, refl)

-- The next statement runs only if this one did not raise.
infixl 5 ◌>>=◌
abbrev pub ◌>>=◌ {ℓ κ} : {A : Type ℓ} {B : Type κ} → Result A → (A → Result B) → Result B
err raised >>= next = err raised
ok value >>= next = next value

infixl 5 ◌>>◌
abbrev pub ◌>>◌ {κ} : {B : Type κ} → Result (Unit {0}) → Result B → Result B
check >> next = check >>= λ _. next

-- `if test: raise e`
abbrev pub raise_if : Bool → Exn → Result (Unit {0})
raise_if true e = err e
raise_if false e = ok tt

abbrev pub or_raise {ℓ} : {A : Type ℓ} → Option A → Exn → Result A
or_raise none e = err e
or_raise (some a) e = ok a

-- `type(exc).__name__`
unfoldable pub class_name : Exn → String
unfolding base_name account_name transaction_name
class_name (base e) = base_name e
class_name (account e) = account_name e
class_name (transaction e) = transaction_name e
class_name (value_error _) = "ValueError"
class_name invalid_operation = "InvalidOperation"
class_name (library name text) = name

-- `str(exc)`
unfoldable pub message : (ℕ → String) → Exn → String
unfolding base_message account_message transaction_message
message uuid_text (base e) = base_message uuid_text e
message uuid_text (account e) = account_message uuid_text e
message uuid_text (transaction e) = transaction_message uuid_text e
message uuid_text (value_error text) = text
message uuid_text invalid_operation = "[<class 'decimal.InvalidOperation'>]"
message uuid_text (library name text) = text
