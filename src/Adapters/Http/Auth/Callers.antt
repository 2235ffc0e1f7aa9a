-- ===== src/Adapters/Http/Auth/Callers.antt =====
-- Whom `get_current_user` lets in.
use banking_transaction_syst.Prelude.{
  ℕ, Bool, true, false, ◌≡◌, refl, Option, none, some, List, [], ◌∷◌, arith,
}
use banking_transaction_syst.Prelude.Tests.{◌==◌, nat_eq, string_eq}
use banking_transaction_syst.Adapters.Http.Auth.{
  AuthenticatedUser, HttpException, Resolved, resolved, raised, has_role, contains,
  can_access_account, parse_dev_token, validate_jwt, production, by_token, by_credentials,
  by_header, development, of_payload, get_current_user, require_admin,
}

module _ (parse_uuid : List ℕ → Option ℕ) where
  production_401 :
      (credentials : Option (List ℕ))
      → (e : HttpException) × (production parse_uuid credentials ≡ raised e) × (e.status_code ≡ 401)
  unfolding production validate_jwt of_payload
  production_401 none = (_, refl, refl)
  production_401 (some token) = (_, refl, refl)

  -- Outside development every request is refused with 401, whatever its header and its token are.
  pub production_refuses :
      (header credentials : Option (List ℕ))
      → (e : HttpException) × (get_current_user parse_uuid false header credentials ≡ raised e)
        × (e.status_code ≡ 401)
  unfolding get_current_user
  production_refuses header credentials = production_401 credentials

  -- A user with the one role of a development login.
  abbrev Plain : Resolved AuthenticatedUser → Type 0
  Plain r = (u : AuthenticatedUser) → r ≡ resolved u → u.roles ≡ "user" ∷ []

  production-Plain : (credentials : Option (List ℕ)) → Plain (production parse_uuid credentials)
  production-Plain credentials u h =
      let (e, eq, s) = production_401 credentials in absurd (cc (eq, h))

  by_token-Plain :
      (found : Option ℕ) (credentials : Option (List ℕ))
      → Plain (by_token parse_uuid found credentials)
  unfolding by_token
  by_token-Plain (some uid) credentials u h = ground arith
  by_token-Plain none credentials u h = production-Plain credentials u h

  by_credentials-Plain :
      (credentials : Option (List ℕ)) → Plain (by_credentials parse_uuid credentials)
  unfolding by_credentials
  by_credentials-Plain none u h = production-Plain none u h
  by_credentials-Plain (some token) u h =
      by_token-Plain (parse_dev_token parse_uuid token) (some token) u h

  by_header-Plain : (found : Option ℕ) → Plain (by_header parse_uuid found)
  unfolding by_header
  by_header-Plain (some uid) u h = ground arith
  by_header-Plain none u h = absurd (cc h)

  development-Plain :
      (header credentials : Option (List ℕ)) → Plain (development parse_uuid header credentials)
  unfolding development
  development-Plain none credentials u h = by_credentials-Plain credentials u h
  development-Plain (some []) credentials u h = by_credentials-Plain credentials u h
  development-Plain (some (c ∷ text)) credentials u h = by_header-Plain (parse_uuid (c ∷ text)) u h

  get_current_user-Plain :
      (is_development : Bool) (header credentials : Option (List ℕ))
      → Plain (get_current_user parse_uuid is_development header credentials)
  unfolding get_current_user
  get_current_user-Plain true header credentials u h = development-Plain header credentials u h
  get_current_user-Plain false header credentials u h = production-Plain credentials u h

  -- Whoever is let in may use the accounts with the own user id as the owner and no other, and is
  -- refused with 403 where an administrator is required.
  pub caller_rights :
      (is_development : Bool) (header credentials : Option (List ℕ)) (u : AuthenticatedUser)
      → get_current_user parse_uuid is_development header credentials ≡ resolved u
      → ((owner : ℕ) → can_access_account owner u ≡ (u.user_id == owner))
        × ((e : HttpException) × (require_admin
                (get_current_user parse_uuid is_development header credentials)
              ≡ raised e)
            × (e.status_code ≡ 403))
  unfolding can_access_account has_role contains require_admin
  caller_rights is_development header credentials u h =
      let plain = get_current_user-Plain is_development header credentials u h in
      (
        λ owner. rw (plain, contains) refl,
        (
          record { status_code = 403; detail = "Admin role required." },
          rw (h, require_admin, plain, contains) refl,
          refl,
        ),
      )

  -- A dev token that names a user logs that user in during development.
  pub dev_login :
      (token : List ℕ) (uid : ℕ)
      → parse_dev_token parse_uuid token ≡ some uid
      → get_current_user parse_uuid true none (some token)
        ≡ resolved (record { user_id = uid; roles = "user" ∷ [] })
  unfolding get_current_user development by_credentials by_token
  dev_login token uid h = rw h refl
