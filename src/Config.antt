-- ===== src/Config.antt =====
-- src/config/validation.ts: the variables of the environment, as Joi validates them when the gateway
-- starts. Joi's tests on a text are an argument. `abortEarly` stops at the first variable that is
-- refused; the variables are read in the order of the schema.
pub mod Required
pub mod Options
pub mod Startup
mod Tests
use multi_tenant_saas_gatewa.Common.{
  ℕ, String, ◌≡◌, Bool, true, false, Option, none, some, ◌==◌, if◌then◌else◌,
}

-- `string` accepts a text, `number` and `boolean` convert one. A number may be any of JavaScript's.
pub record Joi : Type 1 where
  pub Number : Type 0
  pub numeral : ℕ → Number
  pub string : String → Bool
  pub number : String → Option Number
  pub boolean : String → Option Bool

-- Joi.string() does not allow the empty text.
pub record IsLawfulJoi (J : Joi) : Type 1 where
  pub string_empty : J.string "" ≡ false

-- What comes of the validation: the variable at which it stopped, or the values.
pub data Checked (A : Type 0) : Type 0 where
  refused : String → Checked A
  accepted : A → Checked A

infixl 5 ◌>>=◌
-- Shut in proofs, which take a chain apart by one lemma.
unfoldable pub ◌>>=◌ : {A B : Type 0} → Checked A → (A → Checked B) → Checked B
refused key >>= f = refused key
accepted a >>= f = f a

-- `process.env`.
abbrev pub Env : Type 0
Env = String → Option String

pub data NodeEnv : Type 0 where
  development production test : NodeEnv

pub data LogLevel : Type 0 where
  debug info warn error : LogLevel

abbrev pub node_env_of : String → Option NodeEnv
node_env_of s =
    if s == "development"
    then some development
    else if s == "production"
    then some production
    else if s == "test"
    then some test
    else none

abbrev pub log_level_of : String → Option LogLevel
log_level_of s =
    if s == "debug"
    then some debug
    else if s == "info"
    then some info
    else if s == "warn"
    then some warn
    else if s == "error"
    then some error
    else none

abbrev pub converted : {A : Type 0} → String → Option A → Checked A
converted key none = refused key
converted key (some a) = accepted a

-- `.valid(…).default(d)`, and a conversion with a default.
abbrev pub value_or : {A : Type 0} → (String → Option A) → Env → String → A → Checked A
value_or of env key d = elim (env key) [ none ↦ accepted d | some s ↦ converted key (of s) ]

module _ (J : Joi) (env : Env) where
  abbrev pub tested : String → String → Checked String
  tested key s = if J.string s then accepted s else refused key

  -- `Joi.string().required()`
  abbrev pub text : String → Checked String
  text key = elim (env key) [ none ↦ refused key | some s ↦ tested key s ]

  -- `Joi.string().default(d)`
  abbrev pub text_or : String → String → Checked String
  text_or key d = elim (env key) [ none ↦ accepted d | some s ↦ tested key s ]

  -- `Joi.string().optional()`
  abbrev pub optional : String → Checked (Option String)
  optional key = elim (env key) [
    | none ↦ accepted none
    | some s ↦ if J.string s then accepted (some s) else refused key
  ]

  abbrev pub number_or : String → ℕ → Checked J.Number
  number_or key d = value_or J.number env key (J.numeral d)

  abbrev pub boolean_or : String → Bool → Checked Bool
  boolean_or = value_or J.boolean env

pub record EnvironmentVariables (J : Joi) : Type 0 where
  pub node_env : NodeEnv
  pub port : J.Number
  pub log_level : LogLevel
  pub database_host : String
  pub database_port : J.Number
  pub database_user : String
  pub database_password : String
  pub database_name : String
  pub database_ssl : Bool
  pub database_url : Option String
  pub redis_host : String
  pub redis_port : J.Number
  pub redis_password : Option String
  pub redis_db : J.Number
  pub redis_url : Option String
  pub jwt_secret : String
  pub jwt_expiration : String
  pub jwt_refresh_secret : String
  pub jwt_refresh_expiration : String
  pub kafka_brokers : String
  pub kafka_group_id : String
  pub kafka_client_id : String
  pub rate_limit_window : J.Number
  pub rate_limit_max_requests : J.Number
  pub prometheus_enabled : Bool
  pub prometheus_port : J.Number
  pub cors_origins : String
  pub aws_region : Option String
  pub aws_access_key_id : Option String
  pub aws_secret_access_key : Option String

-- `configValidationSchema`
unfoldable pub validate : (J : Joi) → Env → Checked (EnvironmentVariables J)
validate J env = do
  node_env ← value_or node_env_of env "NODE_ENV" development
  port ← number_or J env "PORT" 3000
  log_level ← value_or log_level_of env "LOG_LEVEL" info
  database_host ← text J env "DATABASE_HOST"
  database_port ← number_or J env "DATABASE_PORT" 5432
  database_user ← text J env "DATABASE_USER"
  database_password ← text J env "DATABASE_PASSWORD"
  database_name ← text J env "DATABASE_NAME"
  database_ssl ← boolean_or J env "DATABASE_SSL" false
  database_url ← optional J env "DATABASE_URL"
  redis_host ← text_or J env "REDIS_HOST" "localhost"
  redis_port ← number_or J env "REDIS_PORT" 6379
  redis_password ← optional J env "REDIS_PASSWORD"
  redis_db ← number_or J env "REDIS_DB" 0
  redis_url ← optional J env "REDIS_URL"
  jwt_secret ← text J env "JWT_SECRET"
  jwt_expiration ← text_or J env "JWT_EXPIRATION" "24h"
  jwt_refresh_secret ← text J env "JWT_REFRESH_SECRET"
  jwt_refresh_expiration ← text_or J env "JWT_REFRESH_EXPIRATION" "7d"
  kafka_brokers ← text_or J env "KAFKA_BROKERS" "localhost:9092"
  kafka_group_id ← text_or J env "KAFKA_GROUP_ID" "saas-gateway"
  kafka_client_id ← text_or J env "KAFKA_CLIENT_ID" "saas-gateway-client"
  rate_limit_window ← number_or J env "RATE_LIMIT_WINDOW" 60000
  rate_limit_max_requests ← number_or J env "RATE_LIMIT_MAX_REQUESTS" 100
  prometheus_enabled ← boolean_or J env "PROMETHEUS_ENABLED" true
  prometheus_port ← number_or J env "PROMETHEUS_PORT" 9090
  cors_origins ← text_or J env "CORS_ORIGINS" "http://localhost:3000"
  aws_region ← optional J env "AWS_REGION"
  aws_access_key_id ← optional J env "AWS_ACCESS_KEY_ID"
  aws_secret_access_key ← optional J env "AWS_SECRET_ACCESS_KEY"
  accepted (record {
    node_env = node_env;
    port = port;
    log_level = log_level;
    database_host = database_host;
    database_port = database_port;
    database_user = database_user;
    database_password = database_password;
    database_name = database_name;
    database_ssl = database_ssl;
    database_url = database_url;
    redis_host = redis_host;
    redis_port = redis_port;
    redis_password = redis_password;
    redis_db = redis_db;
    redis_url = redis_url;
    jwt_secret = jwt_secret;
    jwt_expiration = jwt_expiration;
    jwt_refresh_secret = jwt_refresh_secret;
    jwt_refresh_expiration = jwt_refresh_expiration;
    kafka_brokers = kafka_brokers;
    kafka_group_id = kafka_group_id;
    kafka_client_id = kafka_client_id;
    rate_limit_window = rate_limit_window;
    rate_limit_max_requests = rate_limit_max_requests;
    prometheus_enabled = prometheus_enabled;
    prometheus_port = prometheus_port;
    cors_origins = cors_origins;
    aws_region = aws_region;
    aws_access_key_id = aws_access_key_id;
    aws_secret_access_key = aws_secret_access_key;
  })
