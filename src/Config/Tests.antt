-- ===== src/Config/Tests.antt =====
-- An environment that is accepted, and ones that are not.
use multi_tenant_saas_gatewa.Common.{
  ℕ, ◌≡◌, refl, ◌↔◌, ◌⊎◌, true, false, not, none, some, [], ◌∷◌, ◌==◌, if◌then◌else◌, string_dec,
}
use multi_tenant_saas_gatewa.Database.{Entity}
use multi_tenant_saas_gatewa.Entities.{User}
use multi_tenant_saas_gatewa.Gateway.Memory.{example, users-IsLawful}
use multi_tenant_saas_gatewa.Users.Tests.{one_user}
use multi_tenant_saas_gatewa.Auth.Tests.{ada_in, after_login}
use multi_tenant_saas_gatewa.Http.Filter.{answered}
use multi_tenant_saas_gatewa.Http.Tests.{
  request, request_of_ada, tokens_for_ada, tokens_for_ada-IsLawfulJwt, tokens_of_ada,
}
use multi_tenant_saas_gatewa.Controllers.Auth.{me, current, handle}
use multi_tenant_saas_gatewa.Controllers.Auth.Tests.{logs_in, resolves_acme}
use multi_tenant_saas_gatewa.Config.{
  Joi, IsLawfulJoi, refused, accepted, ◌>>=◌, Env, production, info, EnvironmentVariables, validate,
}
use multi_tenant_saas_gatewa.Config.Required.{Provided, validate_required}
use multi_tenant_saas_gatewa.Config.Options.{
  database_module, token_config, strategy_secret, cors_origins,
}
use multi_tenant_saas_gatewa.Config.Startup.{context_of, login-me_started, synchronize_iff}

abbrev joi : Joi
joi = record {
  Number = ℕ;
  numeral = λ n. n;
  string = λ s. not (s == "");
  number = λ s. if s == "8080" then some 8080 else none;
  boolean = λ s. if s == "true" then some true else if s == "false" then some false else none;
}

joi-IsLawfulJoi : IsLawfulJoi joi
unfolding string_dec
joi-IsLawfulJoi = record { string_empty = refl }

abbrev env : Env
env key =
    if key == "NODE_ENV"
    then some "production"
    else if key == "PORT"
    then some "8080"
    else if key == "DATABASE_HOST"
    then some "db"
    else if key == "DATABASE_USER"
    then some "gateway"
    else if key == "DATABASE_PASSWORD"
    then some "pw"
    else if key == "DATABASE_NAME"
    then some "saas"
    else if key == "JWT_SECRET"
    then some "s"
    else if key == "JWT_REFRESH_SECRET"
    then some "r"
    else none

abbrev values : EnvironmentVariables joi
values = record {
  node_env = production;
  port = 8080;
  log_level = info;
  database_host = "db";
  database_port = 5432;
  database_user = "gateway";
  database_password = "pw";
  database_name = "saas";
  database_ssl = false;
  database_url = none;
  redis_host = "localhost";
  redis_port = 6379;
  redis_password = none;
  redis_db = 0;
  redis_url = none;
  jwt_secret = "s";
  jwt_expiration = "24h";
  jwt_refresh_secret = "r";
  jwt_refresh_expiration = "7d";
  kafka_brokers = "localhost:9092";
  kafka_group_id = "saas-gateway";
  kafka_client_id = "saas-gateway-client";
  rate_limit_window = 60000;
  rate_limit_max_requests = 100;
  prometheus_enabled = true;
  prometheus_port = 9090;
  cors_origins = "http://localhost:3000";
  aws_region = none;
  aws_access_key_id = none;
  aws_secret_access_key = none;
}

accepts_env : validate joi env ≡ accepted values
unfolding validate ◌>>=◌ string_dec
accepts_env = refl

-- With an empty secret the start stops there.
stops_at_empty_secret :
    validate joi (λ key. if key == "JWT_SECRET" then some "" else env key) ≡ refused "JWT_SECRET"
unfolding validate ◌>>=◌ string_dec
stops_at_empty_secret = refl

two_origins : cors_origins (λ key. some "http://a, http://b") ≡ "http://a" ∷ "http://b" ∷ []
unfolding cors_origins string_dec
two_origins = refl

validate_required_example :
    Provided env "DATABASE_HOST" "db"
    × Provided env "DATABASE_USER" "gateway"
    × Provided env "DATABASE_PASSWORD" "pw"
    × Provided env "DATABASE_NAME" "saas"
    × Provided env "JWT_SECRET" "s"
    × Provided env "JWT_REFRESH_SECRET" "r"
validate_required_example = validate_required joi joi-IsLawfulJoi env values accepts_env

login-me_started_example :
    (old : Entity User) × (users-IsLawful.row one_user.users old.id ≡ some old)
    × (old.own.tenant_id ≡ "acme")
    × (old.own.email ≡ "ada@acme")
    × (example.bcrypt.compare "pw" old.own.password_hash ≡ true)
    × (handle example
          (token_config values)
          (λ s. s)
          (context_of values tokens_for_ada (λ id. true))
          request_of_ada
          "id"
          9
          me
          after_login
        ≡ (
          answered
              (200, current (record { user_id = old.id; email = "ada@acme"; tenant_id = "acme" })),
          after_login,
        ))
unfolding token_config strategy_secret string_dec
login-me_started_example =
    login-me_started joi joi-IsLawfulJoi env values example users-IsLawful (λ s. s) tokens_for_ada
      (λ id. true) tokens_for_ada-IsLawfulJwt ada_in 77 9 "id" request request_of_ada one_user
      after_login tokens_of_ada "acme" accepts_env logs_in refl resolves_acme

synchronize_iff_example :
    ((database_module values).synchronize ≡ true)
    ↔ ((env "NODE_ENV" ≡ none) ⊎ (env "NODE_ENV" ≡ some "development"))
synchronize_iff_example = synchronize_iff joi env values accepts_env
