-- ===== src/Http/Middleware.antt =====
-- src/middleware/tenant.middleware.ts, src/modules/redis/custom-throttler.guard.ts, and what
-- src/common/interceptors/logging.interceptor.ts does to a request.
use multi_tenant_saas_gatewa.Common.{
  String, Bool, Option, none, some, List, [], ◌∷◌, if◌then◌else◌, leb, ◌&&◌, get_or, truthy, concat,
}
use multi_tenant_saas_gatewa.Common.Outcome.{Result, ok, throw, bad_request, Exception}
use multi_tenant_saas_gatewa.Http.Request.{Request}
use Prim.Native.Char.{code, Char}

abbrev pub is_dot : Char → Bool
is_dot c = leb b'.' (code c) && leb (code c) b'.'

-- A character put in front of the first part.
abbrev pub on_first : Char → List String → List String
on_first c [] = String.◌∷◌ c "" ∷ []
on_first c (part ∷ parts) = String.◌∷◌ c part ∷ parts

-- `host.split('.')`
unfoldable pub split_dots : String → List String
split_dots String.[] = "" ∷ []
split_dots (String.◌∷◌ c s) =
    let rest = split_dots s in if is_dot c then "" ∷ rest else on_first c rest

-- `parts.length >= 3 ? parts[0] : undefined`
abbrev pub first_of_three : List String → Option String
first_of_three (a ∷ b ∷ c ∷ rest) = some a
first_of_three _ = none

unfoldable pub extract_subdomain : Request → Option String
unfolding split_dots
extract_subdomain q = first_of_three (split_dots (get_or q.host ""))

abbrev pub tenant_required : Exception
tenant_required =
    bad_request "Tenant ID is required. Provide X-Tenant-ID header or use tenant subdomain."

abbrev pub or_else : Option String → Option String → Option String
or_else none y = y
or_else (some x) y = some x

-- `TenantMiddleware.use`: the tenant that is attached to the request.
unfoldable pub resolve_tenant : Request → Result String
unfolding extract_subdomain
resolve_tenant q = elim (truthy (or_else (truthy q.x_tenant_id) (extract_subdomain q))) [
  | none ↦ throw tenant_required
  | some tenant_id ↦ ok tenant_id
]

-- `getTracker`, with the fields that it reads: `tenantId`, `user.id` and `ip`.
unfoldable pub get_tracker : Option String → Option String → String → String
get_tracker tenant_id user_id ip =
    concat (get_or (truthy tenant_id) "anonymous" ∷ ":" ∷ get_or (truthy user_id) ip ∷ [])

-- The id that `LoggingInterceptor.intercept` takes, where `uuid` is a new one.
abbrev pub request_id : Request → String → String
request_id q uuid = get_or (truthy q.x_request_id) uuid

-- The header that it sets.
abbrev pub with_request_id : Request → String → Request
with_request_id q uuid = record q { x_request_id = some (request_id q uuid) }
