-- ===== src/Http/Answers.antt =====
-- What is answered to what a handler throws.
use multi_tenant_saas_gatewa.Common.{
  ℕ, String, ◌≡◌, ◌≢◌, arith, refl, ◌⊎◌, inl, inr, none, some, ◌==◌, truthy, string_dec, Bool-cases,
}
use multi_tenant_saas_gatewa.Common.Outcome.{
  Exception, http, query_failed, entity_not_found, error, Body, plain, object, text, many,
}
use multi_tenant_saas_gatewa.Http.Request.{Request}
use multi_tenant_saas_gatewa.Http.Exceptions.{
  AppException, of_api_key, of_tenant, of_user, api_key_payload, tenant_payload, user_payload,
  api_key_not_found, api_key_revoked, api_key_expired, api_key_limit_exceeded, tenant_not_found,
  tenant_slug_conflict, tenant_suspended, tenant_limit_exceeded, user_not_found,
  user_email_conflict, user_inactive, invalid_credentials, email_not_verified, token_expired,
  invalid_token, exception_of, payload_of, status_of,
}
use multi_tenant_saas_gatewa.Http.Filter.{
  absent, Answer, given_details, answer_http, internal_error, duplicate_entry,
  foreign_key_violation, answer_query_failed, answer, build_error_response,
}

-- The answers to what is no `HttpException`, by the code of PostgreSQL for a query that failed.
pub data Fixed : Exception → Answer → Type 0 where
  internal : (m : String) → Fixed (error m) internal_error
  unknown : Fixed (query_failed none) internal_error
  other_code :
      (code : String)
      → code ≢ "23505"
      → code ≢ "23503"
      → Fixed (query_failed (some code)) internal_error
  duplicate : (code : String) → code ≡ "23505" → Fixed (query_failed (some code)) duplicate_entry
  foreign_key :
      (code : String) → code ≡ "23503" → Fixed (query_failed (some code)) foreign_key_violation
  not_found : Fixed entity_not_found (record {
    status_code = 404;
    code = "ENTITY_NOT_FOUND";
    message = "Requested resource not found";
    details = absent;
  })

-- Everything that is thrown is answered. An `HttpException` keeps its status, and only it is answered
-- so. Anything else has a fixed answer: 409 for a query that failed with the code 23505, 400 for one with
-- 23503, 404 for an entity that was not found, and else 500; so nothing of its own text is answered.
pub build_error_response_cases :
    (e : Exception) (q : Request) (timestamp : ℕ)
    → let r = build_error_response e q timestamp in
      ((status : ℕ) × (body : Body) × (m : String) × (e ≡ http status body m)
        × (r.status_code ≡ status))
      ⊎ ((a : Answer) × Fixed e a
          × (r ≡ record {
            status_code = a.status_code;
            code = a.code;
            message = a.message;
            details = a.details;
            path = q.url;
            timestamp = timestamp;
            request_id = truthy q.x_request_id;
          }))
unfolding build_error_response answer answer_http answer_query_failed
build_error_response_cases (http status (plain s) m) q timestamp =
    inl (status, plain s, m, refl, refl)
build_error_response_cases (http status (object code (some (many texts)) details) m) q timestamp =
    inl (status, _, m, refl, refl)
build_error_response_cases (http status (object code (some (text s)) details) m) q timestamp =
    inl (status, _, m, refl, refl)
build_error_response_cases (http status (object code none details) m) q timestamp =
    inl (status, _, m, refl, refl)
build_error_response_cases (query_failed none) q timestamp = inr (internal_error, unknown, refl)
build_error_response_cases (query_failed (some code)) q timestamp =
    elim (Bool-cases (code == "23505")) [
      | inl unique ↦ inr (duplicate_entry, duplicate code (ground (arith, unique)), rw unique refl)
      | inr other ↦ elim (Bool-cases (code == "23503")) [
        | inl foreign ↦ inr (
          foreign_key_violation,
          foreign_key code (ground (arith, foreign)),
          rw (other, foreign) refl,
        )
        | inr neither ↦ inr (
          internal_error,
          other_code code (ground (arith, other)) (ground (arith, neither)),
          rw (other, neither) refl,
        )
      ]
    ]
build_error_response_cases entity_not_found q timestamp = inr (_, not_found, refl)
build_error_response_cases (error m) q timestamp = inr (internal_error, internal m, refl)

-- No code of the application is empty.
code_of : (x : AppException) → truthy (some (payload_of x).code) ≡ some (payload_of x).code
unfolding payload_of api_key_payload tenant_payload user_payload string_dec
code_of (of_api_key (api_key_not_found a)) = refl
code_of (of_api_key api_key_revoked) = refl
code_of (of_api_key api_key_expired) = refl
code_of (of_api_key (api_key_limit_exceeded a)) = refl
code_of (of_tenant (tenant_not_found a)) = refl
code_of (of_tenant (tenant_slug_conflict a)) = refl
code_of (of_tenant (tenant_suspended a)) = refl
code_of (of_tenant (tenant_limit_exceeded a b)) = refl
code_of (of_user (user_not_found a)) = refl
code_of (of_user (user_email_conflict a)) = refl
code_of (of_user (user_inactive a)) = refl
code_of (of_user invalid_credentials) = refl
code_of (of_user email_not_verified) = refl
code_of (of_user token_expired) = refl
code_of (of_user invalid_token) = refl

-- An exception of the application is answered with its own status, code and details.
pub build_error_response-exception_of :
    (x : AppException) (q : Request) (timestamp : ℕ)
    → let r = build_error_response (exception_of x) q timestamp in
      (r.status_code ≡ status_of x)
      × (r.code ≡ (payload_of x).code)
      × (r.details ≡ given_details (payload_of x).details)
unfolding build_error_response answer answer_http
build_error_response-exception_of x q timestamp = (refl, rw (code_of x) refl, refl)
