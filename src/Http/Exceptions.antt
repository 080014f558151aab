-- ===== src/Http/Exceptions.antt =====
-- src/common/exceptions: the exceptions with a code of the application's own. `details` is JSON text,
-- for a name that needs no escapes.
use multi_tenant_saas_gatewa.Common.{ℕ, String, Option, none, some, [], ◌∷◌, concat, decimal}
use multi_tenant_saas_gatewa.Common.Outcome.{Exception, http, object, text}

pub record AppErrorPayload : Type 0 where
  pub code : String
  pub message : String
  pub details : Option String

-- `AppException`: `HttpException` takes its message from the payload.
abbrev pub app_exception : AppErrorPayload → ℕ → Exception
app_exception p status =
    http status (object (some p.code) (some (text p.message)) p.details) p.message

abbrev plain_payload : String → String → AppErrorPayload
plain_payload code message = record { code = code; message = message; details = none }

-- api-key.exceptions.ts
pub data ApiKeyException : Type 0 where
  api_key_not_found : String → ApiKeyException
  api_key_revoked api_key_expired : ApiKeyException
  api_key_limit_exceeded : ℕ → ApiKeyException

unfoldable pub api_key_payload : ApiKeyException → AppErrorPayload
api_key_payload (api_key_not_found identifier) =
    plain_payload "API_KEY_NOT_FOUND" (concat ("API key '" ∷ identifier ∷ "' not found" ∷ []))
api_key_payload api_key_revoked = plain_payload "API_KEY_REVOKED" "This API key has been revoked"
api_key_payload api_key_expired = plain_payload "API_KEY_EXPIRED" "This API key has expired"
api_key_payload (api_key_limit_exceeded limit) = record {
  code = "API_KEY_LIMIT_EXCEEDED";
  message =
      concat
        ("Maximum number of active API keys (" ∷ decimal limit ∷ ") reached for this tenant" ∷ []);
  details = some (concat ("{\"limit\":" ∷ decimal limit ∷ "}" ∷ []));
}

unfoldable pub api_key_status : ApiKeyException → ℕ
api_key_status (api_key_not_found identifier) = 404
api_key_status api_key_revoked = 401
api_key_status api_key_expired = 401
api_key_status (api_key_limit_exceeded limit) = 402

-- tenant.exceptions.ts
pub data TenantException : Type 0 where
  tenant_not_found tenant_slug_conflict tenant_suspended : String → TenantException
  tenant_limit_exceeded : String → ℕ → TenantException

unfoldable pub tenant_payload : TenantException → AppErrorPayload
tenant_payload (tenant_not_found identifier) =
    plain_payload "TENANT_NOT_FOUND" (concat ("Tenant '" ∷ identifier ∷ "' not found" ∷ []))
tenant_payload (tenant_slug_conflict slug) =
    plain_payload "TENANT_SLUG_CONFLICT"
      (concat ("Tenant with slug '" ∷ slug ∷ "' already exists" ∷ []))
tenant_payload (tenant_suspended tenant_id) =
    plain_payload "TENANT_SUSPENDED" (concat ("Tenant '" ∷ tenant_id ∷ "' is suspended" ∷ []))
tenant_payload (tenant_limit_exceeded resource limit) = record {
  code = "TENANT_LIMIT_EXCEEDED";
  message =
      concat ("Tenant has reached the maximum limit of " ∷ decimal limit ∷ " " ∷ resource ∷ []);
  details =
      some (concat ("{\"resource\":\"" ∷ resource ∷ "\",\"limit\":" ∷ decimal limit ∷ "}" ∷ []));
}

unfoldable pub tenant_status : TenantException → ℕ
tenant_status (tenant_not_found identifier) = 404
tenant_status (tenant_slug_conflict slug) = 409
tenant_status (tenant_suspended tenant_id) = 403
tenant_status (tenant_limit_exceeded resource limit) = 402

-- user.exceptions.ts
pub data UserException : Type 0 where
  user_not_found user_email_conflict user_inactive : String → UserException
  invalid_credentials email_not_verified token_expired invalid_token : UserException

unfoldable pub user_payload : UserException → AppErrorPayload
user_payload (user_not_found identifier) =
    plain_payload "USER_NOT_FOUND" (concat ("User '" ∷ identifier ∷ "' not found" ∷ []))
user_payload (user_email_conflict email) =
    plain_payload "USER_EMAIL_CONFLICT"
      (concat ("User with email '" ∷ email ∷ "' already exists in this tenant" ∷ []))
user_payload (user_inactive user_id) =
    plain_payload "USER_INACTIVE"
      (concat ("User '" ∷ user_id ∷ "' account is inactive or suspended" ∷ []))
user_payload invalid_credentials = plain_payload "INVALID_CREDENTIALS" "Invalid email or password"
user_payload email_not_verified =
    plain_payload "EMAIL_NOT_VERIFIED" "Please verify your email address before logging in"
user_payload token_expired = plain_payload "TOKEN_EXPIRED" "Token has expired. Please log in again"
user_payload invalid_token = plain_payload "INVALID_TOKEN" "Invalid or malformed token"

unfoldable pub user_status : UserException → ℕ
user_status (user_not_found identifier) = 404
user_status (user_email_conflict email) = 409
user_status (user_inactive user_id) = 403
user_status invalid_credentials = 401
user_status email_not_verified = 403
user_status token_expired = 401
user_status invalid_token = 401

-- The subclasses of `AppException`.
pub data AppException : Type 0 where
  of_api_key : ApiKeyException → AppException
  of_tenant : TenantException → AppException
  of_user : UserException → AppException

unfoldable pub payload_of : AppException → AppErrorPayload
unfolding api_key_payload tenant_payload user_payload
payload_of (of_api_key x) = api_key_payload x
payload_of (of_tenant x) = tenant_payload x
payload_of (of_user x) = user_payload x

unfoldable pub status_of : AppException → ℕ
unfolding api_key_status tenant_status user_status
status_of (of_api_key x) = api_key_status x
status_of (of_tenant x) = tenant_status x
status_of (of_user x) = user_status x

abbrev pub exception_of : AppException → Exception
exception_of x = app_exception (payload_of x) (status_of x)
