-- ===== src/Dto/Tenants.antt =====
-- The DTOs of tenants, webhooks, API keys and roles: src/modules/tenants/dto, src/modules/webhooks/dto,
-- src/modules/api-keys/dto and src/modules/rbac/dto. `parse_date` is `new Date(text)`, with which
-- the API key service reads the date of a DTO.
use multi_tenant_saas_gatewa.Common.{
  ℕ, String, Bool, true, false, not, ◌&&◌, ◌||◌, Option, none, some, [], ◌∷◌, ◌==◌, leb,
  if◌then◌else◌,
}
use multi_tenant_saas_gatewa.Entities.{TenantStatus}
use multi_tenant_saas_gatewa.Tenants.{CreateTenantPayload, UpdateTenantPayload}
use multi_tenant_saas_gatewa.ApiKeys.{CreateApiKeyDto, UpdateApiKeyDto}
use multi_tenant_saas_gatewa.Webhooks.{
  WebhookEvent, tenant_created, tenant_updated, tenant_deleted, user_created, user_updated,
  user_deleted, api_key_created, api_key_revoked, CreateWebhookDto, UpdateWebhookDto,
}
use multi_tenant_saas_gatewa.Controllers.Rbac.{CreateRoleDto}
use multi_tenant_saas_gatewa.Dto.{
  Validators, Fields, is_null, lookup, ◌>>=◌, ◌>>◌, guard, whitelisted, string, optional_string,
  optional, optional_int, property, text_of, boolean_of, item_text, list_of, that, string_type,
  boolean_type, array_type, anything, between,
}
use Prim.Native.Char.{code, Char}

abbrev pub tenant_status_of : String → Option TenantStatus
tenant_status_of s =
    if s == "ACTIVE"
    then some TenantStatus.active
    else if s == "INACTIVE"
    then some TenantStatus.inactive
    else if s == "SUSPENDED"
    then some TenantStatus.suspended
    else if s == "ARCHIVED"
    then some TenantStatus.archived
    else none

abbrev pub event_of : String → Option WebhookEvent
event_of s =
    if s == "tenant.created"
    then some tenant_created
    else if s == "tenant.updated"
    then some tenant_updated
    else if s == "tenant.deleted"
    then some tenant_deleted
    else if s == "user.created"
    then some user_created
    else if s == "user.updated"
    then some user_updated
    else if s == "user.deleted"
    then some user_deleted
    else if s == "api_key.created"
    then some api_key_created
    else if s == "api_key.revoked"
    then some api_key_revoked
    else none

-- [a-z0-9]
abbrev pub is_slug_char : Char → Bool
is_slug_char c = leb b'a' (code c) && leb (code c) b'z' || leb b'0' (code c) && leb (code c) b'9'

abbrev pub is_hyphen : Char → Bool
is_hyphen c = leb b'-' (code c) && leb (code c) b'-'

-- What is left of a slug, where `started` says that a character was read since the last hyphen.
unfoldable pub slug_from : Bool → String → Bool
slug_from started String.[] = started
slug_from started (String.◌∷◌ c s) =
    let within = slug_from true s in
    let after = slug_from false s in
    if is_slug_char c then within else if started && is_hyphen c then after else false

-- /^[a-z0-9]+(?:-[a-z0-9]+)*$/
unfoldable pub is_slug : String → Bool
unfolding slug_from
is_slug s = slug_from false s

abbrev pub dated : (String → ℕ) → Option String → Option ℕ
dated parse_date none = none
dated parse_date (some s) = if s == "" then none else some (parse_date s)

module _ (V : Validators) (fields : Fields) where
  unfoldable pub create_tenant_dto : Option CreateTenantPayload
  unfolding whitelisted
  create_tenant_dto = do
    guard (whitelisted ("name" ∷ "slug" ∷ "description" ∷ "website" ∷ "logo" ∷ []) fields)
    name ← string V fields "name" (λ s. between 2 100 (V.length s))
    slug ← string V fields "slug" (λ s. between 3 50 (V.length s) && is_slug s)
    description ← optional_string V fields "description" anything
    website ← optional_string V fields "website" anything
    logo ← optional_string V fields "logo" anything
    some (record {
      name = name;
      slug = slug;
      description = description;
      website = website;
      logo = logo;
    })

  unfoldable pub update_tenant_dto : Option UpdateTenantPayload
  unfolding whitelisted
  update_tenant_dto = do
    guard
        (whitelisted ("name" ∷ "slug" ∷ "description" ∷ "website" ∷ "logo" ∷ "status" ∷ []) fields)
    name ← optional_string V fields "name" (λ s. between 2 100 (V.length s))
    slug ← optional_string V fields "slug" is_slug
    description ← optional_string V fields "description" anything
    website ← optional_string V fields "website" anything
    logo ← optional_string V fields "logo" anything
    status ← optional V fields string_type (λ v. text_of v >>= tenant_status_of) "status"
    some (record {
      name = name;
      slug = slug;
      description = description;
      website = website;
      logo = logo;
      status = status;
    })

  unfoldable pub create_webhook_dto : Option CreateWebhookDto
  unfolding whitelisted
  create_webhook_dto = do
    guard (whitelisted ("url" ∷ "description" ∷ "events" ∷ "maxRetries" ∷ []) fields)
    url ← string V fields "url" V.is_url
    description ← optional_string V fields "description" (λ s. leb (V.length s) 255)
    events ← property V fields array_type (list_of (λ x. item_text x >>= event_of)) "events"
    max_retries ← optional_int V fields "maxRetries" (between 1 5)
    some (record {
      url = url;
      description = description;
      events = events;
      max_retries = max_retries;
    })

  unfoldable pub update_webhook_dto : Option UpdateWebhookDto
  unfolding whitelisted
  update_webhook_dto = do
    guard (whitelisted ("url" ∷ "description" ∷ "events" ∷ "isActive" ∷ "maxRetries" ∷ []) fields)
    url ← optional_string V fields "url" V.is_url
    description ← optional_string V fields "description" (λ s. leb (V.length s) 255)
    events ← optional V fields array_type (list_of (λ x. item_text x >>= event_of)) "events"
    is_active ← optional V fields boolean_type boolean_of "isActive"
    max_retries ← optional_int V fields "maxRetries" (between 1 5)
    some (record {
      null_column =
          is_null (lookup "url" fields)
          || is_null (lookup "events" fields)
          || is_null (lookup "isActive" fields)
          || is_null (lookup "maxRetries" fields);
      no_description = is_null (lookup "description" fields);
      url = url;
      description = description;
      events = events;
      is_active = is_active;
      max_retries = max_retries;
    })

  -- `WebhookTestDto`
  unfoldable pub webhook_test_dto : Option WebhookEvent
  unfolding whitelisted
  webhook_test_dto = do
    guard (whitelisted ("event" ∷ []) fields)
    property V fields string_type (λ v. text_of v >>= event_of) "event"

  unfoldable pub create_api_key_dto : (String → ℕ) → Option CreateApiKeyDto
  unfolding whitelisted
  create_api_key_dto parse_date = do
    guard (whitelisted ("name" ∷ "scopes" ∷ "expiresAt" ∷ []) fields)
    name ← string V fields "name" (λ s. between 3 255 (V.length s))
    scopes ← optional V fields array_type (list_of item_text) "scopes"
    expires_at ← optional_string V fields "expiresAt" V.is_date_string
    some (record { name = name; scopes = scopes; expires_at = dated parse_date expires_at })

  unfoldable pub update_api_key_dto : (String → ℕ) → Option UpdateApiKeyDto
  unfolding whitelisted
  update_api_key_dto parse_date = do
    guard (whitelisted ("name" ∷ "scopes" ∷ "expiresAt" ∷ []) fields)
    name ← optional_string V fields "name" (λ s. leb (V.length s) 255)
    scopes ← optional V fields array_type (list_of item_text) "scopes"
    expires_at ← optional_string V fields "expiresAt" V.is_date_string
    some (record { name = name; scopes = scopes; expires_at = dated parse_date expires_at })

  -- `AssignRoleDto`, whose only property is the id of the role.
  unfoldable pub assign_role_dto : Option String
  unfolding whitelisted
  assign_role_dto = do
    guard (whitelisted ("roleId" ∷ []) fields)
    string V fields "roleId" V.is_uuid4

  unfoldable pub create_role_dto : Option CreateRoleDto
  unfolding whitelisted
  create_role_dto = do
    guard (whitelisted ("name" ∷ "description" ∷ "permissionIds" ∷ []) fields)
    name ← string V fields "name" (λ s. not (s == "") && leb (V.length s) 100)
    description ← optional_string V fields "description" (λ s. leb (V.length s) 500)
    permission_ids ←
        optional V fields array_type (list_of (λ x. that V.is_uuid4 (item_text x))) "permissionIds"
    some (record { name = name; description = description; permission_ids = permission_ids })
