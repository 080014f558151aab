-- ===== src/Config/Options.antt =====
-- What the modules take from the environment: src/database/config/typeorm.config.ts and
-- database.module.ts, src/modules/kafka/kafka.module.ts, src/modules/redis/redis.module.ts,
-- src/modules/auth/auth.module.ts with the secret of its strategy, the throttler and the routes of
-- the middleware in src/app.module.ts, and src/main.ts. `ConfigService` gives the validated value
-- of a variable, and the text of the environment for one that the schema does not name. `parse_int`
-- is `parseInt` on a text.
use multi_tenant_saas_gatewa.Common.{
  String, Bool, true, false, ◌||◌, ◌&&◌, some, List, [], ◌∷◌, map, ◌==◌, leb, if◌then◌else◌, get_or,
  truthy,
}
use multi_tenant_saas_gatewa.Auth.{TokenConfig}
use multi_tenant_saas_gatewa.Config.{
  Joi, Env, NodeEnv, development, production, test, EnvironmentVariables,
}
use Prim.Native.Char.{code, Char}

abbrev pub is_development : NodeEnv → Bool
is_development development = true
is_development production = false
is_development test = false

-- The entities, by their classes.
pub data Class : Type 0 where
  tenant user role permission api_key audit_log webhook password_reset_token : Class

pub record DataSourceOptions (N : Type 0) : Type 0 where
  pub host : String
  pub port : N
  pub username : String
  pub password : String
  pub database : String
  -- `{ rejectUnauthorized: false }` where the connection is encrypted.
  pub ssl : Bool
  pub entities : List Class
  pub migrations : List String
  pub synchronize : Bool
  pub logging : Bool

abbrev all_entities : List Class
all_entities =
    tenant ∷ user ∷ role ∷ permission ∷ api_key ∷ audit_log ∷ webhook ∷ password_reset_token ∷ []

abbrev migration_files : List String
migration_files = "src/database/migrations/*.ts" ∷ []

module _ {J : Joi} (v : EnvironmentVariables J) where
  unfoldable pub get_type_orm_config : DataSourceOptions J.Number
  get_type_orm_config = record {
    host = v.database_host;
    port = v.database_port;
    username = v.database_user;
    password = v.database_password;
    database = v.database_name;
    ssl = v.database_ssl;
    entities = all_entities;
    migrations = migration_files;
    synchronize = is_development v.node_env;
    logging = is_development v.node_env;
  }

  -- The factory of `DatabaseModule`, which the gateway runs with.
  unfoldable pub database_module : DataSourceOptions J.Number
  database_module = record {
    host = v.database_host;
    port = v.database_port;
    username = v.database_user;
    password = v.database_password;
    database = v.database_name;
    ssl = v.database_ssl;
    entities = tenant ∷ user ∷ role ∷ permission ∷ api_key ∷ audit_log ∷ [];
    migrations = migration_files;
    synchronize = is_development v.node_env;
    logging = is_development v.node_env;
  }

  -- What `TokenGeneratorService` reads.
  unfoldable pub token_config : TokenConfig
  token_config = record {
    jwt_expiration = some v.jwt_expiration;
    refresh_expiration = some v.jwt_refresh_expiration;
    jwt_secret = some v.jwt_secret;
    refresh_secret = some v.jwt_refresh_secret;
  }

  -- The secret of `JwtStrategy`: `configService.get('JWT_SECRET') || ''`.
  unfoldable pub strategy_secret : String
  strategy_secret = get_or (truthy (some v.jwt_secret)) ""

-- `dataSource`, with which the migrations run: it reads the environment itself.
unfoldable pub data_source : {N : Type 0} → (String → N) → Env → DataSourceOptions N
data_source parse_int env = record {
  host = get_or (truthy (env "DATABASE_HOST")) "localhost";
  port = parse_int (get_or (truthy (env "DATABASE_PORT")) "5432");
  username = get_or (truthy (env "DATABASE_USER")) "gateway_user";
  password = get_or (truthy (env "DATABASE_PASSWORD")) "gateway_password";
  database = get_or (truthy (env "DATABASE_NAME")) "saas_gateway_db";
  ssl = get_or (env "DATABASE_SSL") "" == "true";
  entities = all_entities;
  migrations = migration_files;
  synchronize = false;
  logging = false;
}

pub record JwtModuleOptions : Type 0 where
  pub secret : String
  pub expires_in : String

pub record KafkaOptions : Type 0 where
  pub brokers : List String
  pub client_id : String
  pub group_id : String

pub record ThrottlerOptions (N : Type 0) : Type 0 where
  pub ttl : N
  pub limit : N

module _ {J : Joi} (v : EnvironmentVariables J) where
  abbrev pub jwt_module : JwtModuleOptions
  jwt_module = record { secret = v.jwt_secret; expires_in = v.jwt_expiration }

  abbrev pub kafka_module : KafkaOptions
  kafka_module = record {
    brokers = get_or (truthy (some v.kafka_brokers)) "localhost:9092" ∷ [];
    client_id = "saas-gateway";
    group_id = "saas-gateway-group";
  }

  abbrev pub throttler_module : ThrottlerOptions J.Number
  throttler_module = record { ttl = v.rate_limit_window; limit = v.rate_limit_max_requests }

-- The controllers' paths that `TenantMiddleware` runs for.
abbrev pub tenant_routes : List String
tenant_routes =
    "users" ∷ "tenants" ∷ "api-keys" ∷ "auth" ∷ "rbac" ∷ "audit-logs" ∷ "webhooks" ∷ "profile" ∷ []

-- White space and the ends of lines, as `trim` knows them.
abbrev pub is_space : Char → Bool
is_space c =
    let n = code c in
    leb 9 n && leb n 13
    || leb 32 n && leb n 32
    || leb 160 n && leb n 160
    || leb 5760 n && leb n 5760
    || leb 8192 n && leb n 8202
    || leb 8232 n && leb n 8233
    || leb 8239 n && leb n 8239
    || leb 8287 n && leb n 8287
    || leb 12288 n && leb n 12288
    || leb 65279 n && leb n 65279

-- `trim`, from the front and from the end.
unfoldable pub trim_start : String → String
trim_start String.[] = ""
trim_start (String.◌∷◌ c s) = let rest = trim_start s in if is_space c then rest else String.◌∷◌ c s

unfoldable pub trim_end : String → String
trim_end String.[] = ""
trim_end (String.◌∷◌ c s) =
    let rest = trim_end s in if is_space c && rest == "" then "" else String.◌∷◌ c rest

abbrev pub is_comma : Char → Bool
is_comma c = leb b',' (code c) && leb (code c) b','

abbrev pub on_first : Char → List String → List String
on_first c [] = String.◌∷◌ c "" ∷ []
on_first c (part ∷ parts) = String.◌∷◌ c part ∷ parts

-- `split(',')`
unfoldable pub split_commas : String → List String
split_commas String.[] = "" ∷ []
split_commas (String.◌∷◌ c s) =
    let rest = split_commas s in if is_comma c then "" ∷ rest else on_first c rest

-- The origins that `bootstrap` allows, and the port that it listens at.
unfoldable pub cors_origins : Env → List String
unfolding trim_start trim_end split_commas
cors_origins env =
    map (λ o. trim_end (trim_start o))
      (split_commas (get_or (env "CORS_ORIGINS") "http://localhost:3000"))

abbrev pub listen_port : Env → String
listen_port env = get_or (env "PORT") "3000"
