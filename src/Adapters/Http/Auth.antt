-- ===== src/Adapters/Http/Auth.antt =====
-- Who calls: src/adapters/inbound/http/middleware/auth.py. A text is the list of its code points;
-- `UUID(text)` is the parameter `parse_uuid`, with `none` for `ValueError`. Logging is left out.
pub mod Callers
use banking_transaction_syst.Prelude.{
  ℕ, String, Bool, true, false, ◌||◌, ◌≡◌, refl, Option, none, some, List, [], ◌∷◌, inl, inr, arith,
}
use banking_transaction_syst.Prelude.Tests.{◌==◌, nat_eq, string_eq, if◌then◌else◌, Option-cases}
use banking_transaction_syst.Prelude.Text.{codes, starts_with}

pub record AuthenticatedUser : Type 0 where
  pub user_id : ℕ
  pub roles : List String

-- `HTTPException`, or the 500 of an exception that nobody handles.
pub record HttpException : Type 0 where
  pub status_code : ℕ
  pub detail : String

pub data Resolved {ℓ} (A : Type ℓ) : Type ℓ where
  resolved : A → Resolved A
  raised : HttpException → Resolved A

abbrev http : ℕ → String → HttpException
http status detail = record { status_code = status; detail = detail }

contains : String → List String → Bool
contains role [] = false
contains role (r ∷ roles) = r == role || contains role roles

unfoldable pub has_role : String → AuthenticatedUser → Bool
unfolding contains
has_role role u = contains role u.roles

unfoldable pub can_access_account : ℕ → AuthenticatedUser → Bool
can_access_account owner u = has_role "admin" u || u.user_id == owner

drop : ℕ → List ℕ → List ℕ
drop Prim.Native.Nat.zero s = s
drop (Prim.Native.Nat.suc n) [] = []
drop (Prim.Native.Nat.suc n) (c ∷ s) = drop n s

module _ (parse_uuid : List ℕ → Option ℕ) where
  -- `_parse_dev_token`
  unfoldable pub parse_dev_token : List ℕ → Option ℕ
  unfolding drop
  parse_dev_token token =
      if starts_with (codes "dev:") token then parse_uuid (drop 4 token) else none

  -- `_validate_jwt`, which is a placeholder: the claims `sub` and `roles`, or the exception.
  unfoldable pub validate_jwt : List ℕ → Resolved (List ℕ × List String)
  validate_jwt token =
      raised (http 401 "JWT validation not implemented. Use dev token in development.")

  abbrev user : ℕ → AuthenticatedUser
  user uid = record { user_id = uid; roles = "user" ∷ [] }

  of_sub : Option ℕ → List String → Resolved AuthenticatedUser
  of_sub none roles = raised (http 500 "ValueError")
  of_sub (some uid) roles = resolved (record { user_id = uid; roles = roles })

  of_payload : Resolved (List ℕ × List String) → Resolved AuthenticatedUser
  unfolding of_sub
  of_payload (raised e) = raised e
  of_payload (resolved (sub, roles)) = of_sub (parse_uuid sub) roles

  -- The part for production.
  production : Option (List ℕ) → Resolved AuthenticatedUser
  unfolding of_payload
  production none = raised (http 401 "Authentication required.")
  production (some token) = of_payload (validate_jwt token)

  by_token : Option ℕ → Option (List ℕ) → Resolved AuthenticatedUser
  by_token (some uid) credentials = resolved (user uid)
  by_token none credentials = production credentials

  -- The second method, with the token of the `Authorization` header.
  by_credentials : Option (List ℕ) → Resolved AuthenticatedUser
  unfolding by_token
  by_credentials none = production none
  by_credentials (some token) = by_token (parse_dev_token token) (some token)

  by_header : Option ℕ → Resolved AuthenticatedUser
  by_header (some uid) = resolved (user uid)
  by_header none = raised (http 400 "X-Dev-User-Id must be a valid UUID.")

  -- The two methods of development. An empty header counts as none.
  development : Option (List ℕ) → Option (List ℕ) → Resolved AuthenticatedUser
  unfolding by_header by_credentials
  development none credentials = by_credentials credentials
  development (some []) credentials = by_credentials credentials
  development (some (c ∷ text)) credentials = by_header (parse_uuid (c ∷ text))

  -- `get_current_user`, by the setting, the header `X-Dev-User-Id` and the bearer token.
  unfoldable pub get_current_user :
      Bool → Option (List ℕ) → Option (List ℕ) → Resolved AuthenticatedUser
  unfolding development production
  get_current_user is_development header credentials =
      if is_development then development header credentials else production credentials

-- `require_admin`
unfoldable pub require_admin : Resolved AuthenticatedUser → Resolved AuthenticatedUser
require_admin (raised e) = raised e
require_admin (resolved u) =
    if has_role "admin" u then resolved u else raised (http 403 "Admin role required.")
