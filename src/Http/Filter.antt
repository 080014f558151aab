-- ===== src/Http/Filter.antt =====
-- src/common/filters/all-exceptions.filter.ts: the answer to what a handler throws.
use multi_tenant_saas_gatewa.Common.{
  ℕ, String, Option, none, some, List, [], ◌∷◌, ◌==◌, if◌then◌else◌, get_or, truthy, leb, ◌&&◌,
}
use multi_tenant_saas_gatewa.Common.Outcome.{
  Exception, http, query_failed, entity_not_found, error, Body, plain, object, text, many, Result,
  ok, throw,
}
use multi_tenant_saas_gatewa.Http.Request.{Request}

pub data Details : Type 0 where
  absent : Details
  given : String → Details
  messages : List String → Details

pub record ErrorResponse : Type 0 where
  pub status_code : ℕ
  pub code : String
  pub message : String
  pub details : Details
  pub path : String
  pub timestamp : ℕ
  pub request_id : Option String

-- The table of `statusToCode`.
abbrev pub status_codes : List (ℕ × String)
status_codes =
    (400, "BAD_REQUEST")
    ∷ (401, "UNAUTHORIZED")
    ∷ (403, "FORBIDDEN")
    ∷ (404, "NOT_FOUND")
    ∷ (405, "METHOD_NOT_ALLOWED")
    ∷ (409, "CONFLICT")
    ∷ (422, "UNPROCESSABLE_ENTITY")
    ∷ (429, "TOO_MANY_REQUESTS")
    ∷ (500, "INTERNAL_SERVER_ERROR")
    ∷ (503, "SERVICE_UNAVAILABLE")
    ∷ []

unfoldable pub entry_of : ℕ → List (ℕ × String) → Option String
entry_of status [] = none
entry_of status (e ∷ es) =
    let rest = entry_of status es in if leb e.0 status && leb status e.0 then some e.1 else rest

unfoldable pub status_to_code : ℕ → String
unfolding entry_of
status_to_code status = get_or (entry_of status status_codes) "HTTP_ERROR"

-- The part of an answer that does not come from the request.
pub record Answer : Type 0 where
  pub status_code : ℕ
  pub code : String
  pub message : String
  pub details : Details

abbrev pub given_details : Option String → Details
given_details none = absent
given_details (some json) = given json

-- The branch for an `HttpException` with the given status, `getResponse()` and message.
unfoldable pub answer_http : ℕ → Body → String → Answer
unfolding status_to_code
answer_http status (plain s) message = record {
  status_code = status;
  code = status_to_code status;
  message = s;
  details = absent;
}
answer_http status (object code (some (many texts)) details) message = record {
  status_code = status;
  code = "VALIDATION_ERROR";
  message = "Request validation failed";
  details = messages texts;
}
answer_http status (object code (some (text s)) details) message = record {
  status_code = status;
  code = get_or (truthy code) (status_to_code status);
  message = get_or (truthy (some s)) message;
  details = given_details details;
}
answer_http status (object code none details) message = record {
  status_code = status;
  code = get_or (truthy code) (status_to_code status);
  message = message;
  details = given_details details;
}

abbrev pub internal_error : Answer
internal_error = record {
  status_code = 500;
  code = "INTERNAL_SERVER_ERROR";
  message = "An unexpected error occurred. Please try again later.";
  details = absent;
}

abbrev pub duplicate_entry : Answer
duplicate_entry = record {
  status_code = 409;
  code = "DUPLICATE_ENTRY";
  message = "A record with the same unique value already exists";
  details = absent;
}

abbrev pub foreign_key_violation : Answer
foreign_key_violation = record {
  status_code = 400;
  code = "FOREIGN_KEY_VIOLATION";
  message = "Referenced resource does not exist";
  details = absent;
}

-- The branch for a `QueryFailedError` with the code of PostgreSQL.
unfoldable pub answer_query_failed : Option String → Answer
answer_query_failed none = internal_error
answer_query_failed (some code) =
    if code == "23505"
    then duplicate_entry
    else if code == "23503"
    then foreign_key_violation
    else internal_error

unfoldable pub answer : Exception → Answer
unfolding answer_http answer_query_failed
answer (http status body message) = answer_http status body message
answer (query_failed code) = answer_query_failed code
answer entity_not_found = record {
  status_code = 404;
  code = "ENTITY_NOT_FOUND";
  message = "Requested resource not found";
  details = absent;
}
answer (error message) = internal_error

-- `buildErrorResponse`.
unfoldable pub build_error_response : Exception → Request → ℕ → ErrorResponse
unfolding answer
build_error_response exception q timestamp =
    let a = answer exception in
    record {
      status_code = a.status_code;
      code = a.code;
      message = a.message;
      details = a.details;
      path = q.url;
      timestamp = timestamp;
      request_id = truthy q.x_request_id;
    }

-- What the client gets: `catch` sends the response of a handler that throws.
pub data Response (A : Type 0) : Type 0 where
  answered : A → Response A
  failed : ErrorResponse → Response A

unfoldable pub respond : {A : Type 0} → Request → ℕ → Result A → Response A
respond q timestamp (ok a) = answered a
respond q timestamp (throw e) = failed (build_error_response e q timestamp)
