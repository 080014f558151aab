-- ===== src/Config/Startup.antt =====
-- A gateway that has started: its environment was accepted, and its parts are configured from it.
use multi_tenant_saas_gatewa.Common.{
  ℕ, String, ◌≡◌, refl, ap, ◌∙◌, ◌↔◌, ◌⊎◌, inl, inr, Bool, true, false, not, none, some, List, [],
  ◌∷◌, filter, any, Option-cases, ite, arith, truthy, get_or,
}
use multi_tenant_saas_gatewa.Common.Outcome.{ok}
use multi_tenant_saas_gatewa.Database.{Entity, IsLawful}
use multi_tenant_saas_gatewa.Entities.{User}
use multi_tenant_saas_gatewa.Gateway.{Gateway, State}
use multi_tenant_saas_gatewa.Auth.{Jwt, TokenResponseDto, LoginDto}
use multi_tenant_saas_gatewa.Http.Request.{Request}
use multi_tenant_saas_gatewa.Http.Filter.{answered}
use multi_tenant_saas_gatewa.Http.Guards.{IsLawfulJwt}
use multi_tenant_saas_gatewa.Http.Middleware.{resolve_tenant}
use multi_tenant_saas_gatewa.Controllers.{Context}
use multi_tenant_saas_gatewa.Controllers.Auth.{log_in, me, tokens, current, handle}
use multi_tenant_saas_gatewa.Controllers.Auth.Session.{login-me}
use multi_tenant_saas_gatewa.Config.{
  Joi, IsLawfulJoi, Env, NodeEnv, accepted, EnvironmentVariables, validate, node_env_of, converted,
}
use multi_tenant_saas_gatewa.Config.Required.{Provided, validate-Tested, validate_required}
use multi_tenant_saas_gatewa.Config.Options.{
  Class, tenant, user, role, permission, api_key, audit_log, webhook, password_reset_token,
  database_module, token_config, strategy_secret, data_source, is_development,
}

converted-development :
    (t : String) (n : NodeEnv)
    → converted "NODE_ENV" (node_env_of t) ≡ accepted n
    → (is_development n ≡ true) ↔ (t ≡ "development")
converted-development t n h = (λ d. ground (arith, h, d), λ e. ground (arith, h, e))

provided :
    {env : Env} {key s : String} (d : String) → Provided env key s → get_or (truthy (env key)) d ≡ s
provided d p = rw p.is_set (ground (arith, p.not_empty))

Class-discrete : Discrete Class
Class-discrete = hlevel

-- The classes that the modules name in `forFeature`.
abbrev pub features : List Class
features =
    user ∷ tenant ∷ password_reset_token ∷ role ∷ permission ∷ api_key ∷ audit_log ∷ webhook ∷ []

-- The pipeline of a gateway with this configuration.
abbrev pub context_of : {J : Joi} → EnvironmentVariables J → Jwt → (String → Bool) → Context
context_of v jwt is_uuid = record { jwt = jwt; secret = strategy_secret v; is_uuid = is_uuid }

module _ (J : Joi) (law : IsLawfulJoi J) (env : Env) (v : EnvironmentVariables J) where
  strategy_secret-token_config :
      validate J env ≡ accepted v → truthy (token_config v).jwt_secret ≡ some (strategy_secret v)
  unfolding strategy_secret token_config
  strategy_secret-token_config h =
      let (host, login_name, password, database, jwt_secret, refresh_secret) =
        validate_required J law env v h in
      ground (arith, jwt_secret.not_empty)

  -- Where the environment was accepted and a signed token verifies with its secret: a login that is
  -- answered at the endpoint gives a token that the endpoint for the current user accepts in every
  -- request that has a tenant, and it answers with a stored user of the given email and tenant that
  -- the password fits.
  pub login-me_started :
      (g : Gateway) (U : IsLawful g.users) (sha256 : String → String) (jwt : Jwt)
      (is_uuid : String → Bool) (lawful : IsLawfulJwt jwt) (dto : LoginDto) (now timestamp : ℕ)
      (uuid : String) (q q' : Request) (s s' : State g) (r : TokenResponseDto) (tenant_id : String)
      → validate J env ≡ accepted v
      → handle g
          (token_config v)
          sha256
          (context_of v jwt is_uuid)
          q
          uuid
          timestamp
          (log_in dto now)
          s
        ≡ (answered (201, tokens r), s')
      → q'.bearer_token ≡ some r.access_token
      → resolve_tenant q' ≡ ok tenant_id
      → (old : Entity User) × (U.row s.users old.id ≡ some old)
        × (old.own.tenant_id ≡ dto.tenant_id)
        × (old.own.email ≡ dto.email)
        × (g.bcrypt.compare dto.password old.own.password_hash ≡ true)
        × (handle g (token_config v) sha256 (context_of v jwt is_uuid) q' uuid timestamp me s' ≡ (
          answered (
            200,
            current (record { user_id = old.id; email = dto.email; tenant_id = dto.tenant_id }),
          ),
          s',
        ))
  login-me_started g U sha256 jwt is_uuid lawful dto now timestamp uuid q q' s s' r tenant_id
        started h carried resolved =
      login-me g U (token_config v) sha256 (context_of v jwt is_uuid) lawful dto now timestamp uuid
        q q' s s' r tenant_id (strategy_secret-token_config started) h carried resolved

  -- The migrations run on the database that the gateway runs on, and never change its schema by
  -- themselves.
  pub data_source-database_module :
      (parse_int : String → J.Number)
      → validate J env ≡ accepted v
      → ((data_source parse_int env).host ≡ (database_module v).host)
        × ((data_source parse_int env).username ≡ (database_module v).username)
        × ((data_source parse_int env).password ≡ (database_module v).password)
        × ((data_source parse_int env).database ≡ (database_module v).database)
        × ((data_source parse_int env).synchronize ≡ false)
  unfolding data_source database_module
  data_source-database_module parse_int h =
      let (host, login_name, password, database, jwt_secret, refresh_secret) =
        validate_required J law env v h in
      (
        provided "localhost" host,
        provided "gateway_user" login_name,
        provided "gateway_password" password,
        provided "saas_gateway_db" database,
        refl,
      )

module _ (J : Joi) (env : Env) (v : EnvironmentVariables J) where
  -- A gateway whose environment was accepted lets TypeORM change the schema of the database exactly
  -- where NODE_ENV is missing or is "development".
  pub synchronize_iff :
      validate J env ≡ accepted v
      → ((database_module v).synchronize ≡ true)
        ↔ ((env "NODE_ENV" ≡ none) ⊎ (env "NODE_ENV" ≡ some "development"))
  unfolding database_module
  synchronize_iff h =
      let tested = (validate-Tested J env v h).node_env in
      elim (Option-cases (env "NODE_ENV")) [
        | inl missing ↦ (λ _. inl missing, λ _. ground (arith, tested, missing))
        | inr (t, found) ↦
            let (only, all) = converted-development t v.node_env (ground (arith, tested, found)) in
            (λ h. inr (found ∙ ap (λ x. some x) (only h)), λ h. all (ground (arith, h, found)))
      ]

pub unregistered : {J : Joi} → EnvironmentVariables J → List Class
unfolding database_module Class-discrete
unregistered v =
    filter (λ c. not (any (λ d. ite (Class-discrete c d) true false) (database_module v).entities))
      features

-- Whatever the environment: of the entities whose repositories the modules ask for, exactly the
-- tokens for the reset of a password and the webhooks are not registered with the connection of the
-- gateway.
unregistered_lem :
    {J : Joi} (v : EnvironmentVariables J) → unregistered v ≡ password_reset_token ∷ webhook ∷ []
unfolding unregistered
unregistered_lem v = refl
