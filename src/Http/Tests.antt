-- ===== src/Http/Tests.antt =====
-- Requests and their answers, on examples.
use multi_tenant_saas_gatewa.Common.{
  ℕ, String, ◌≡◌, refl, ◌⊎◌, none, some, [], ◌∷◌, ◌==◌, ◌&&◌, if◌then◌else◌, arith, string_dec,
  concat, decimal,
}
use multi_tenant_saas_gatewa.Common.Outcome.{ok, throw, http, Body, query_failed, error}
use multi_tenant_saas_gatewa.Auth.{
  JwtPayload, Jwt, TokenConfig, TokenResponseDto, generate, extract_hours, leading_number, required,
}
use multi_tenant_saas_gatewa.Entities.{active}
use multi_tenant_saas_gatewa.Users.Tests.{ada}
use multi_tenant_saas_gatewa.Http.Request.{Request, missing}
use multi_tenant_saas_gatewa.Http.Filter.{build_error_response, Answer, answer}
use multi_tenant_saas_gatewa.Http.Answers.{build_error_response_cases, Fixed}
use multi_tenant_saas_gatewa.Http.Middleware.{resolve_tenant, split_dots, extract_subdomain}
use multi_tenant_saas_gatewa.Http.Hosts.{resolve_tenant-join_dots, tenant_of, is_label, join_dots}
use multi_tenant_saas_gatewa.Http.Guards.{IsLawfulJwt}
use multi_tenant_saas_gatewa.Http.Logging.{intercept, line_of, line_text, log}

abbrev pub request : Request
request = record {
  method = "GET";
  url = "/users";
  host = some "acme.gateway.io";
  x_tenant_id = none;
  x_request_id = none;
  x_api_key = none;
  x_api_secret = none;
  x_forwarded_for = missing;
  user_agent = none;
  remote_address = none;
  bearer_token = some "token";
  param_id = none;
}

build_error_response_cases_example :
    let r = build_error_response (query_failed (some "23505")) request 9 in
    ((status : ℕ) × (body : Body) × (m : String) × (query_failed (some "23505")
        ≡ http status body m)
      × (r.status_code ≡ status))
    ⊎ ((a : Answer) × Fixed (query_failed (some "23505")) a
        × (r ≡ record {
          status_code = a.status_code;
          code = a.code;
          message = a.message;
          details = a.details;
          path = "/users";
          timestamp = 9;
          request_id = none;
        }))
build_error_response_cases_example =
    build_error_response_cases (query_failed (some "23505")) request 9

answers_duplicate : (build_error_response (query_failed (some "23505")) request 9).status_code ≡ 409
unfolding build_error_response answer string_dec
answers_duplicate = refl

resolve_tenant-join_dots_example : resolve_tenant request ≡ ok "acme"
unfolding is_label string_dec tenant_of join_dots
resolve_tenant-join_dots_example =
    resolve_tenant-join_dots ("acme" ∷ "gateway" ∷ "io" ∷ []) request refl refl

-- An IP address is taken for a host with a subdomain.
resolves_address : resolve_tenant (record request { host = some "127.0.0.1" }) ≡ ok "127"
unfolding resolve_tenant split_dots extract_subdomain string_dec
resolves_address = refl

abbrev pub ada_claims : JwtPayload
ada_claims = record { sub = "u1"; email = "ada@acme"; tenant_id = "acme" }

-- Tokens for one user.
unfoldable pub tokens_for_ada : Jwt
tokens_for_ada = record {
  sign = λ p secret expires_in.
      if p.sub == "u1" && p.email == "ada@acme" && p.tenant_id == "acme"
      then ok (concat ("ada." ∷ secret ∷ []))
      else throw (error "cannot sign");
  verify = λ token secret.
      if token == concat ("ada." ∷ secret ∷ []) then ok ada_claims else throw (error "invalid");
}

pub tokens_for_ada-IsLawfulJwt : IsLawfulJwt tokens_for_ada
unfolding tokens_for_ada
tokens_for_ada-IsLawfulJwt = record {
  verify-sign = λ p secret expires_in token h. ground (arith, h);
}

abbrev pub token_config : TokenConfig
token_config = record {
  jwt_expiration = some "24h";
  refresh_expiration = some "7d";
  jwt_secret = some "s";
  refresh_secret = some "r";
}

abbrev pub tokens_of_ada : TokenResponseDto
tokens_of_ada = record {
  access_token = "ada.s";
  refresh_token = "ada.r";
  expires_in = 24;
  token_type = "Bearer";
  user = record {
    id = "u1";
    email = "ada@acme";
    name = "Ada";
    tenant_id = "acme";
    status = active;
  };
}

issues_tokens : generate tokens_for_ada token_config ada ≡ ok tokens_of_ada
unfolding generate required extract_hours leading_number tokens_for_ada string_dec concat
issues_tokens = refl

abbrev pub request_of_ada : Request
request_of_ada = record request { bearer_token = some "ada.s" }

-- The tenant that the host names is not in the line of the log.
logs_unknown :
    (intercept {S = String} {B = String}
      (record request { host = some "acme.gateway.io" })
      "i1"
      1000
      1042
      200
      (λ _ s. (ok "ada", s))
      (record { inner = "s"; header = none; lines = [] })).1.lines
    ≡ record { level = log; text = "[i1] GET /users → 200 (42ms) tenant=unknown" } ∷ []
unfolding intercept line_of line_text concat decimal string_dec
logs_unknown = refl
