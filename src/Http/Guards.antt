-- ===== src/Http/Guards.antt =====
-- Who a request comes from: src/modules/auth/strategies/jwt.strategy.ts with the guard of Passport,
-- src/modules/api-keys/strategies/api-key.strategy.ts, src/common/decorators/current-user.decorator.ts
-- and the pipe of Nest for ids. `is_uuid` is the test of `ParseUUIDPipe`.
use multi_tenant_saas_gatewa.Common.{
  ℕ, String, ◌≡◌, refl, ap, ◌∙◌, inl, inr, Bool, true, Option, none, some, List, get_or, truthy,
  arith, if◌then◌else◌,
}
use multi_tenant_saas_gatewa.Common.Outcome.{Result, ok, throw, M, unauthorized, bad_request}
use multi_tenant_saas_gatewa.Database.{Entity, Repository}
use multi_tenant_saas_gatewa.Database.Laws.{Result-cases}
use multi_tenant_saas_gatewa.Entities.{User}
use multi_tenant_saas_gatewa.Auth.{
  AuthenticatedUser, JwtPayload, Jwt, TokenConfig, TokenResponseDto, generate, required, sign_with,
}
use multi_tenant_saas_gatewa.ApiKeys.{ApiKey, Config, validate_api_key}
use multi_tenant_saas_gatewa.Http.Request.{Request}

-- `JwtStrategy.validate`.
abbrev pub validate_payload : JwtPayload → AuthenticatedUser
validate_payload p = record { user_id = p.sub; email = p.email; tenant_id = p.tenant_id }

-- `JwtGuard`: Passport's `jwt` strategy with the configured secret.
unfoldable pub jwt_guard : Jwt → String → Request → Result AuthenticatedUser
jwt_guard jwt secret q = elim q.bearer_token [
  | none ↦ throw (unauthorized "Unauthorized")
  | some token ↦ elim (jwt.verify token secret) [
    | ok p ↦ ok (validate_payload p)
    | throw _ ↦ throw (unauthorized "Unauthorized")
  ]
]

-- `@CurrentUser()`.
unfoldable pub current_user : Option AuthenticatedUser → Result AuthenticatedUser
current_user (some u) = ok u
current_user none = throw (unauthorized "User not found in request. Make sure JwtGuard is applied.")

unfoldable pub parse_uuid : (String → Bool) → String → Result String
parse_uuid is_uuid id =
    if is_uuid id then ok id else throw (bad_request "Validation failed (uuid is expected)")

-- What the API key strategy attaches to the request.
pub record ApiKeyUser : Type 0 where
  pub user_id : String
  pub tenant_id : String
  pub api_key_id : String
  pub scopes : List String
  pub is_api_key_auth : Bool

abbrev pub user_of_key : Entity ApiKey → ApiKeyUser
user_of_key k = record {
  user_id = k.id;
  tenant_id = k.own.tenant_id;
  api_key_id = k.id;
  scopes = k.own.scopes;
  is_api_key_auth = true;
}

module _ (hmac : String → String → String) (R : Repository ApiKey) (cfg : Config) where
  abbrev pub accept_key : Result (Option (Entity ApiKey)) × R.Table → Result ApiKeyUser × R.Table
  accept_key (throw e, t) = (throw e, t)
  accept_key (ok none, t) = (throw (unauthorized "Invalid API key or secret"), t)
  accept_key (ok (some k), t) = (ok (user_of_key k), t)

  -- `ApiKeyStrategy.validate`; the readings of the clock are those of `validateApiKey`.
  unfoldable pub api_key_strategy : Request → ℕ → ℕ → ℕ → M R.Table ApiKeyUser
  api_key_strategy q expiry_now asked now t = elim (truthy q.x_api_key) [
    | none ↦ (throw (unauthorized "Missing X-API-Key or X-API-Secret header"), t)
    | some key ↦ elim (truthy q.x_api_secret) [
      | none ↦ (throw (unauthorized "Missing X-API-Key or X-API-Secret header"), t)
      | some secret ↦ accept_key (validate_api_key hmac R cfg key secret expiry_now asked now t)
    ]
  ]

-- `verify` accepts what `sign` has signed with the same secret, until the token expires.
pub record IsLawfulJwt (jwt : Jwt) : Type 0 where
  pub verify-sign :
      (p : JwtPayload) (secret expires_in token : String)
      → jwt.sign p secret expires_in ≡ ok token
      → jwt.verify token secret ≡ ok p

-- The access token that a login, a registration or a refresh answers with lets its bearer in as the
-- user that it was made for, with the tenant of that user.
pub generate-jwt_guard :
    (jwt : Jwt) (law : IsLawfulJwt jwt) (cfg : TokenConfig) (secret : String) (u : Entity User)
    (r : TokenResponseDto) (q : Request)
    → truthy cfg.jwt_secret ≡ some secret
    → generate jwt cfg u ≡ ok r
    → q.bearer_token ≡ some r.access_token
    → jwt_guard jwt secret q
      ≡ ok (record { user_id = u.id; email = u.own.email; tenant_id = u.own.tenant_id })
unfolding generate required jwt_guard
generate-jwt_guard jwt law cfg secret u r q configured made carried =
    elim (Result-cases (jwt.sign claims secret expiration)) [
      | inl (e, refused) ↦ absurd (ground (arith, made, configured))
      | inr (token, signed) ↦
          elim (Result-cases (
            sign_with jwt claims (required "JWT_REFRESH_SECRET" cfg.refresh_secret)
              (get_or cfg.refresh_expiration "7d"))) [
                | inl (e, refused) ↦ absurd (ground (arith, made, configured, signed, refused))
                | inr (other, refreshed) ↦
                    let same : r.access_token ≡ token =
                      ground (arith, made, configured, signed, refreshed) in
                    rw
                      (
                        carried ∙ ap some same,
                        jwt_guard,
                        law.verify-sign claims secret expiration token signed,
                      )
                      refl
              ]
    ]
  where
    claims : JwtPayload
    claims = record { sub = u.id; email = u.own.email; tenant_id = u.own.tenant_id }

    expiration : String
    expiration = get_or cfg.jwt_expiration "24h"
