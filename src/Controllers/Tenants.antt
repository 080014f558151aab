-- ===== src/Controllers/Tenants.antt =====
-- src/modules/tenants/tenants.controller.ts, with `AuditInterceptor` around its handlers. No guard
-- protects its routes.
use multi_tenant_saas_gatewa.Common.{ℕ, String, Bool, Option, none, some}
use multi_tenant_saas_gatewa.Common.Outcome.{M, pure, ◌>>=◌, Exception}
use multi_tenant_saas_gatewa.Database.{Repository}
use multi_tenant_saas_gatewa.Entities.{TenantStatus, TenantResponseDto}
use multi_tenant_saas_gatewa.Gateway.{Gateway, State}
use multi_tenant_saas_gatewa.Audit.{AuditLog, Audit, Audited, intercept}
use multi_tenant_saas_gatewa.Tenants.{CreateTenantPayload, UpdateTenantPayload, UpdatedTenant}
use multi_tenant_saas_gatewa.Tenants
use multi_tenant_saas_gatewa.Http.Request.{Request}
use multi_tenant_saas_gatewa.Http.Filter.{Response}
use multi_tenant_saas_gatewa.Http.Pagination.{PaginationQueryDto, PaginatedResponseDto, paginated}
use multi_tenant_saas_gatewa.Controllers.{Context, piped, admit_public, serve}

pub record TenantFilterDto : Type 0 where
  pub q : Option String
  pub status : Option TenantStatus

-- The routes, with their parameters and bodies, and the readings of the clock.
pub data Route : Type 0 where
  post : CreateTenantPayload → ℕ → Route
  get_all : PaginationQueryDto → TenantFilterDto → Route
  get_one : String → Route
  put : String → UpdateTenantPayload → ℕ → Route
  deletion : String → ℕ → ℕ → Route

pub data Reply : Type 0 where
  one : TenantResponseDto → Reply
  updated : UpdatedTenant → Reply
  page : PaginatedResponseDto TenantResponseDto → Reply
  nothing : Reply

abbrev pub success : Route → ℕ
success (post payload now) = 201
success (get_all pages filter) = 200
success (get_one id) = 200
success (put id payload now) = 200
success (deletion id deleted_at now) = 204

-- `@Audit`.
abbrev pub audit_of : Route → Option Audit
audit_of (post payload now) = some (record { action = "tenant.create"; resource = "tenants" })
audit_of (get_all pages filter) = none
audit_of (get_one id) = none
audit_of (put id payload now) = some (record { action = "tenant.update"; resource = "tenants" })
audit_of (deletion id deleted_at now) =
    some (record { action = "tenant.delete"; resource = "tenants" })

module _ (g : Gateway) (ilike : String → String → Bool) (c : Context) where
  unfoldable pub create : CreateTenantPayload → ℕ → M (State g) TenantResponseDto
  create payload now = Tenants.create g payload now

  unfoldable pub find_all :
      PaginationQueryDto → TenantFilterDto → M (State g) (PaginatedResponseDto TenantResponseDto)
  find_all pages filter =
      Tenants.find_all g ilike pages.page pages.limit filter.q filter.status >>= λ found.
      pure (paginated found.0 found.1 pages.page pages.limit)

  unfoldable pub find_by_id : String → M (State g) TenantResponseDto
  find_by_id id = piped c id (λ id. Tenants.find_by_id g id)

  unfoldable pub update : String → UpdateTenantPayload → ℕ → M (State g) UpdatedTenant
  update id payload now = piped c id (λ id. Tenants.update g id payload now)

  unfoldable pub delete : String → ℕ → ℕ → M (State g) (Unit {0})
  delete id deleted_at now = piped c id (λ id. Tenants.delete g id deleted_at now)

  unfoldable pub dispatch : Route → M (State g) Reply
  unfolding create find_all find_by_id update delete
  dispatch (post payload now) = create payload now >>= λ d. pure (one d)
  dispatch (get_all pages filter) = find_all pages filter >>= λ ds. pure (page ds)
  dispatch (get_one id) = find_by_id id >>= λ d. pure (one d)
  dispatch (put id payload now) = update id payload now >>= λ d. pure (updated d)
  dispatch (deletion id deleted_at now) = delete id deleted_at now >>= λ _. pure nothing

  -- A request to the controller. It has no user, so neither has the entry of the log.
  unfoldable pub handle :
      (A : Repository AuditLog)
      → (Exception → String)
      → Request
      → String
      → ℕ
      → Route
      → Audited A (State g)
      → Response (ℕ × Reply) × Audited A (State g)
  unfolding dispatch
  handle A driver q uuid timestamp route = serve q uuid timestamp (admit_public q) (λ _.
      intercept A driver (audit_of route) q none (dispatch route >>= λ r. pure (success route, r)))
