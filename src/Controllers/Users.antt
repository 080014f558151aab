-- ===== src/Controllers/Users.antt =====
-- src/modules/users/users.controller.ts, with `AuditInterceptor` around its handlers. The handlers read
-- the tenant that the middleware attached, and never the user of the token.
pub mod Tokens
pub mod Tenancy
use multi_tenant_saas_gatewa.Common.{
  ℕ, String, ◌≡◌, ◌≢◌, ◌↔◌, refl, ap, ◌∙◌, sym, ◌⊎◌, inl, inr, Bool, Bool-cases, ◌==◌, Option, none,
  some, List, arith, get_or, truthy,
}
use multi_tenant_saas_gatewa.Common.Outcome.{
  Result, ok, throw, M, pure, ◌>>=◌, or_throw, bad_request, Exception,
}
use multi_tenant_saas_gatewa.Database.{Entity, Repository, IsLawful}
use multi_tenant_saas_gatewa.Database.Laws.{Result-cases}
use multi_tenant_saas_gatewa.Entities.{User, UserStatus, UserResponseDto}
use multi_tenant_saas_gatewa.Redis.{IsLawfulCache}
use multi_tenant_saas_gatewa.Gateway.{Gateway, State}
use multi_tenant_saas_gatewa.Auth.{AuthenticatedUser, Jwt, JwtPayload}
use multi_tenant_saas_gatewa.Audit.Transparent.{intercept_inner}
use multi_tenant_saas_gatewa.Audit.{AuditLog, Audit, Audited, intercept, record_outcome}
use multi_tenant_saas_gatewa.Users.{CreateUserPayload, UpdateUserPayload}
use multi_tenant_saas_gatewa.Users
use multi_tenant_saas_gatewa.Users.Steps.{
  Call, creates, finds_by_id, finds_all, updates, deletes, caller, perform,
}
use multi_tenant_saas_gatewa.Users.Table.{perform_isolated_users}
use multi_tenant_saas_gatewa.Http.Request.{Request}
use multi_tenant_saas_gatewa.Http.Filter.{Response, respond, build_error_response}
use multi_tenant_saas_gatewa.Http.Middleware.{resolve_tenant, extract_subdomain}
use multi_tenant_saas_gatewa.Http.Guards.{jwt_guard, validate_payload}
use multi_tenant_saas_gatewa.Http.Pagination.{PaginationQueryDto, PaginatedResponseDto, paginated}
use multi_tenant_saas_gatewa.Controllers.{Context, piped, admit, serve}

-- `UserFilterDto`.
pub record UserFilterDto : Type 0 where
  pub q : Option String
  pub status : Option UserStatus

-- The routes, with their parameters and bodies, the salt that bcrypt draws and the readings of the
-- clock.
pub data Route : Type 0 where
  post : CreateUserPayload → String → ℕ → Route
  get_all : PaginationQueryDto → UserFilterDto → Route
  get_one : String → Route
  put : String → UpdateUserPayload → ℕ → Route
  deletion : String → ℕ → ℕ → Route

pub data Reply : Type 0 where
  one : UserResponseDto → Reply
  page : PaginatedResponseDto UserResponseDto → Reply
  nothing : Reply

abbrev pub success : Route → ℕ
success (post payload salt now) = 201
success (get_all pages filter) = 200
success (get_one id) = 200
success (put id payload now) = 200
success (deletion id deleted_at now) = 204

-- `@Audit`.
abbrev pub audit_of : Route → Option Audit
audit_of (post payload salt now) = some (record { action = "user.create"; resource = "users" })
audit_of (get_all pages filter) = none
audit_of (get_one id) = none
audit_of (put id payload now) = some (record { action = "user.update"; resource = "users" })
audit_of (deletion id deleted_at now) = some (record { action = "user.delete"; resource = "users" })

module _ (g : Gateway) (ttl : ℕ) (ilike : String → String → Bool) (c : Context) where
  -- `getTenantId`, on what the middleware attached.
  unfoldable pub get_tenant_id : String → M (State g) String
  get_tenant_id tenant_id =
      or_throw (truthy (some tenant_id)) (bad_request "Tenant ID is missing from request context")

  -- The five handlers.
  unfoldable pub create : String → CreateUserPayload → String → ℕ → M (State g) UserResponseDto
  unfolding get_tenant_id
  create attached payload salt now =
      get_tenant_id attached >>= λ tenant_id. Users.create g ttl tenant_id payload salt now

  unfoldable pub find_all :
      String
      → PaginationQueryDto
      → UserFilterDto
      → M (State g) (PaginatedResponseDto UserResponseDto)
  unfolding get_tenant_id
  find_all attached pages filter = do
    tenant_id ← get_tenant_id attached
    found ←
        Users.find_all_by_tenant g ttl ilike tenant_id pages.page pages.limit filter.q filter.status
    pure (paginated found.0 found.1 pages.page pages.limit)

  unfoldable pub find_by_id : String → String → M (State g) UserResponseDto
  unfolding get_tenant_id
  find_by_id attached user_id =
      get_tenant_id attached >>= λ tenant_id. Users.find_by_id g ttl tenant_id user_id

  unfoldable pub update : String → String → UpdateUserPayload → ℕ → M (State g) UserResponseDto
  unfolding get_tenant_id
  update attached user_id payload now =
      get_tenant_id attached >>= λ tenant_id. Users.update g ttl tenant_id user_id payload now

  unfoldable pub delete : String → String → ℕ → ℕ → M (State g) (Unit {0})
  unfolding get_tenant_id
  delete attached user_id deleted_at now =
      get_tenant_id attached >>= λ tenant_id. Users.delete g ttl tenant_id user_id deleted_at now

  unfoldable pub dispatch : String → Route → M (State g) Reply
  unfolding create find_all find_by_id update delete
  dispatch attached (post payload salt now) = create attached payload salt now >>= λ d. pure (one d)
  dispatch attached (get_all pages filter) = find_all attached pages filter >>= λ ds. pure (page ds)
  dispatch attached (get_one id) =
      piped c id (λ user_id. find_by_id attached user_id) >>= λ d. pure (one d)
  dispatch attached (put id payload now) =
      piped c id (λ user_id. update attached user_id payload now) >>= λ d. pure (one d)
  dispatch attached (deletion id deleted_at now) =
      piped c id (λ user_id. delete attached user_id deleted_at now) >>= λ _. pure nothing

  -- A route with its audit.
  unfoldable pub audited :
      (A : Repository AuditLog)
      → (Exception → String)
      → Request
      → Route
      → String
      → AuthenticatedUser
      → M (Audited A (State g)) (ℕ × Reply)
  unfolding dispatch
  audited A driver q route attached user =
      intercept A driver (audit_of route) q (some user)
        (dispatch attached route >>= λ r. pure (success route, r))

  -- A request to the controller: the status and the body of the answer, and the state with the audit
  -- log.
  unfoldable pub handle :
      (A : Repository AuditLog)
      → (Exception → String)
      → Request
      → String
      → ℕ
      → Route
      → Audited A (State g)
      → Response (ℕ × Reply) × Audited A (State g)
  unfolding audited
  handle A driver q uuid timestamp route =
      serve q uuid timestamp (admit c q) (λ p. audited A driver q route p.0 p.1)
