-- ===== src/Config/Required.antt =====
-- What an accepted environment has been tested for.
use multi_tenant_saas_gatewa.Common.{
  String, ◌≡◌, ◌≢◌, refl, subst, ap, ◌∙◌, false, some, arith, inl, inr, Bool-cases, Option-cases,
}
use multi_tenant_saas_gatewa.Config.{
  Joi, IsLawfulJoi, Checked, refused, accepted, ◌>>=◌, Env, development, node_env_of, value_or,
  text, boolean_or, EnvironmentVariables, validate,
}

-- Whatever is accepted has the property.
record Holds {A : Type 0} (P : A → Type 0) (m : Checked A) : Type 0 where
  apply : (a : A) → m ≡ accepted a → P a

accepted_injective : {A : Type 0} (a b : A) → accepted a ≡ accepted b → a ≡ b
accepted_injective a b e = cc

Holds-bind :
    {A B : Type 0} {P : B → Type 0} (m : Checked A) (f : A → Checked B)
    → ((a : A) → m ≡ accepted a → Holds P (f a))
    → Holds P (m >>= f)
unfolding ◌>>=◌
Holds-bind (refused key) f h = record { apply = λ b e. absurd (ground (arith, e)) }
Holds-bind (accepted a) f h = h a refl

-- The variables that the other parts read, as they were tested.
pub record Tested (J : Joi) (env : Env) (v : EnvironmentVariables J) : Type 0 where
  pub node_env : value_or node_env_of env "NODE_ENV" development ≡ accepted v.node_env
  pub database_host : text J env "DATABASE_HOST" ≡ accepted v.database_host
  pub database_user : text J env "DATABASE_USER" ≡ accepted v.database_user
  pub database_password : text J env "DATABASE_PASSWORD" ≡ accepted v.database_password
  pub database_name : text J env "DATABASE_NAME" ≡ accepted v.database_name
  pub database_ssl : boolean_or J env "DATABASE_SSL" false ≡ accepted v.database_ssl
  pub jwt_secret : text J env "JWT_SECRET" ≡ accepted v.jwt_secret
  pub jwt_refresh_secret : text J env "JWT_REFRESH_SECRET" ≡ accepted v.jwt_refresh_secret

validate-Holds : (J : Joi) (env : Env) → Holds (Tested J env) (validate J env)
unfolding validate
validate-Holds J env = Holds-bind _ _ λ node_env is_node_env. Holds-bind _ _ λ port _.
    Holds-bind _ _ λ log_level _. Holds-bind _ _ λ database_host is_database_host.
      Holds-bind _ _ λ database_port _. Holds-bind _ _ λ database_user is_database_user.
        Holds-bind _ _ λ database_password is_database_password.
          Holds-bind _ _ λ database_name is_database_name.
            Holds-bind _ _ λ database_ssl is_database_ssl. Holds-bind _ _ λ database_url _.
              Holds-bind _ _ λ redis_host _. Holds-bind _ _ λ redis_port _.
                Holds-bind _ _ λ redis_password _. Holds-bind _ _ λ redis_db _.
                  Holds-bind _ _ λ redis_url _. Holds-bind _ _ λ jwt_secret is_jwt_secret.
                    Holds-bind _ _ λ jwt_expiration _.
                      Holds-bind _ _ λ jwt_refresh_secret is_jwt_refresh_secret.
                        Holds-bind _ _ λ jwt_refresh_expiration _. Holds-bind _ _ λ kafka_brokers _.
                          Holds-bind _ _ λ kafka_group_id _. Holds-bind _ _ λ kafka_client_id _.
                            Holds-bind _ _ λ rate_limit_window _.
                              Holds-bind _ _ λ rate_limit_max_requests _.
                                Holds-bind _ _ λ prometheus_enabled _.
                                  Holds-bind _ _ λ prometheus_port _.
                                    Holds-bind _ _ λ cors_origins _. Holds-bind _ _ λ aws_region _.
                                      Holds-bind _ _ λ aws_access_key_id _.
                                        Holds-bind _ _ λ aws_secret_access_key _. record {
                                          apply = λ v e.
                                              subst (Tested J env) (accepted_injective _ v e)
                                                (record {
                                                  node_env = is_node_env;
                                                  database_host = is_database_host;
                                                  database_user = is_database_user;
                                                  database_password = is_database_password;
                                                  database_name = is_database_name;
                                                  database_ssl = is_database_ssl;
                                                  jwt_secret = is_jwt_secret;
                                                  jwt_refresh_secret = is_jwt_refresh_secret;
                                                });
                                        }

pub validate-Tested :
    (J : Joi) (env : Env) (v : EnvironmentVariables J)
    → validate J env ≡ accepted v
    → Tested J env v
validate-Tested J env = (validate-Holds J env).apply

-- The variable is set to this text, which is not empty.
pub record Provided (env : Env) (key s : String) : Type 0 where
  pub is_set : env key ≡ some s
  pub not_empty : s ≢ ""

module _ (J : Joi) (law : IsLawfulJoi J) (env : Env) where
  text-Provided : (key s : String) → text J env key ≡ accepted s → Provided env key s
  text-Provided key s h = elim (Option-cases (env key)) [
    | inl missing ↦ absurd (ground (arith, h, missing))
    | inr (t, found) ↦ elim (Bool-cases (J.string t)) [
      | inr empty ↦ absurd (ground (arith, h, found, empty))
      | inl fine ↦
          let same : t ≡ s = ground (arith, h, found, fine) in
          record {
            is_set = found ∙ ap (λ x. some x) same;
            not_empty = λ e. ground (arith, fine, law.string_empty, ap J.string (same ∙ e));
          }
    ]
  ]

  -- An environment is accepted only where the host, the user, the password and the name of the database
  -- and both secrets are set to texts that are not empty, and these are the values.
  pub validate_required :
      (v : EnvironmentVariables J)
      → validate J env ≡ accepted v
      → Provided env "DATABASE_HOST" v.database_host
        × Provided env "DATABASE_USER" v.database_user
        × Provided env "DATABASE_PASSWORD" v.database_password
        × Provided env "DATABASE_NAME" v.database_name
        × Provided env "JWT_SECRET" v.jwt_secret
        × Provided env "JWT_REFRESH_SECRET" v.jwt_refresh_secret
  validate_required v h =
      let tested = validate-Tested J env v h in
      (
        text-Provided "DATABASE_HOST" v.database_host tested.database_host,
        text-Provided "DATABASE_USER" v.database_user tested.database_user,
        text-Provided "DATABASE_PASSWORD" v.database_password tested.database_password,
        text-Provided "DATABASE_NAME" v.database_name tested.database_name,
        text-Provided "JWT_SECRET" v.jwt_secret tested.jwt_secret,
        text-Provided "JWT_REFRESH_SECRET" v.jwt_refresh_secret tested.jwt_refresh_secret,
      )
