-- ===== src/Adapters/Http/DevToken.antt =====
-- `POST /auth/dev-token` (src/adapters/inbound/http/routers/auth.py), and where its token is of use.
use banking_transaction_syst.Prelude.{ℕ, true, ◌≡◌, refl, Option, none, some, List, [], ◌∷◌, ◌++◌}
use banking_transaction_syst.Prelude.Tests.{if◌then◌else◌}
use banking_transaction_syst.Prelude.Text.{codes}
use banking_transaction_syst.Infrastructure.Settings.{
  AppEnv, Settings, development, staging, production, is_production, is_development,
}
use banking_transaction_syst.Adapters.Http.Auth.{
  AuthenticatedUser, HttpException, Resolved, resolved, raised, parse_dev_token, get_current_user,
}
use banking_transaction_syst.Adapters.Http.Auth.Callers.{production_refuses, dev_login}

pub record DevTokenResponse : Type 0 where
  pub token : List ℕ
  pub user_id : ℕ
  pub instructions : List ℕ

module _ (text : ℕ → List ℕ) where
  -- The response for a user id; `text` is `str` of a UUID.
  dev_token_response : ℕ → DevTokenResponse
  dev_token_response user_id = record {
    token = codes "dev:" ++ text user_id;
    user_id = user_id;
    instructions =
        codes "Add this header to every request: X-Dev-User-Id: "
        ++ (text user_id ++ codes "  OR use Bearer token in Authorization header.");
  }

  chosen : Option ℕ → ℕ → ℕ
  chosen none drawn = drawn
  chosen (some id) drawn = id

  -- `get_dev_token`, with the user id of the body and the UUID that is drawn if there is none.
  unfoldable pub get_dev_token : Settings → Option ℕ → ℕ → Resolved DevTokenResponse
  unfolding dev_token_response chosen
  get_dev_token settings body drawn =
      if is_production settings
      then raised
          (record { status_code = 403; detail = "Dev token endpoint is disabled in production." })
      else resolved (dev_token_response (chosen body drawn))

  module _ (parse_uuid : List ℕ → Option ℕ)
      (parse_text : (id : ℕ) → parse_uuid (text id) ≡ some id) where
    parse_token : (id : ℕ) → parse_dev_token parse_uuid (codes "dev:" ++ text id) ≡ some id
    unfolding parse_dev_token
    parse_token id = parse_text id

    abbrev pub login : Settings → DevTokenResponse → Resolved AuthenticatedUser
    login settings r = get_current_user parse_uuid (is_development settings) none (some r.token)

    -- What the endpoint answers, and what its token is worth, by the environment.
    abbrev Worth : AppEnv → Settings → Resolved DevTokenResponse → Type 0
    Worth development settings answer =
        (r : DevTokenResponse) × (answer ≡ resolved r)
        × (login settings r ≡ resolved (record { user_id = r.user_id; roles = "user" ∷ [] }))
    Worth staging settings answer =
        (r : DevTokenResponse) × (answer ≡ resolved r)
        × ((e : HttpException) × (login settings r ≡ raised e) × (e.status_code ≡ 401))
    Worth production settings answer =
        (e : HttpException) × (answer ≡ raised e) × (e.status_code ≡ 403)

    logged_in :
        (id : ℕ)
        → get_current_user parse_uuid true none (some (codes "dev:" ++ text id))
          ≡ resolved (record { user_id = id; roles = "user" ∷ [] })
    logged_in id = dev_login parse_uuid (codes "dev:" ++ text id) id (parse_token id)

    worth :
        (app_env : AppEnv) (settings : Settings) (body : Option ℕ) (drawn : ℕ)
        → settings.app_env ≡ app_env
        → Worth app_env settings (get_dev_token settings body drawn)
    unfolding get_dev_token is_production is_development
    worth development settings body drawn h =
        (dev_token_response (chosen body drawn), rw h refl, rw h (logged_in (chosen body drawn)))
    worth staging settings body drawn h =
        let r = dev_token_response (chosen body drawn) in
        (r, rw h refl, rw h (production_refuses parse_uuid none (some r.token)))
    worth production settings body drawn h = (
      record { status_code = 403; detail = "Dev token endpoint is disabled in production." },
      rw h refl,
      refl,
    )

    -- `UUID(str(id))` is `id`: in development the token of the endpoint logs its caller in as the user
    -- that the response names; in staging the endpoint hands out a token too, which is then refused
    -- with 401; in production it is refused with 403.
    pub get_dev_token_lem :
        (settings : Settings) (body : Option ℕ) (drawn : ℕ)
        → Worth settings.app_env settings (get_dev_token settings body drawn)
    get_dev_token_lem settings body drawn = worth settings.app_env settings body drawn refl
