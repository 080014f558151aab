-- ===== src/Tenants.antt =====
-- src/modules/tenants/services: tenant.service.ts and onboarding.service.ts. The onboarding that
-- `create` starts and does not wait for runs to its end here before the event is published.
pub mod Data
pub mod DefaultRoles
pub mod Slugs
pub mod Onboarding
mod Tests
pub use Data.{CreateTenantPayload, UpdateTenantPayload, UpdatedTenant}
pub use DefaultRoles.{DefaultRole, includes, matches, default_role}
unfoldable pub use DefaultRoles.{default_roles, create_roles, initialize_tenant}
use multi_tenant_saas_gatewa.Common.{
  ℕ, ◌-◌, ◌*◌, String, ◌≡◌, Bool, true, false, not, ◌&&◌, ◌||◌, Option, none, some, List, [], ◌∷◌,
  ◌==◌, if◌then◌else◌, concat, get_or, is_some, map, min, truthy, any, filter,
}
use multi_tenant_saas_gatewa.Common.Outcome.{
  Result, ok, throw, M, pure, raise, gets, after, ◌>>=◌, ◌>>◌, refuse_if, or_throw, http_code,
  Exception,
}
use multi_tenant_saas_gatewa.Database.{Entity, Where}
use multi_tenant_saas_gatewa.Entities.{
  Tenant, TenantStatus, active, inactive, suspended, archived, TenantResponseDto, Permission, Role,
  Cached, user, tenant, permissions, role_names,
}
use multi_tenant_saas_gatewa.Redis
use multi_tenant_saas_gatewa.Events.{
  publish_tenant_created, publish_tenant_updated, publish_tenant_deleted,
}
use multi_tenant_saas_gatewa.Users.{page_window}
use multi_tenant_saas_gatewa.Gateway.{
  Gateway, State, insert_tenant, save_tenant, remove_tenant, insert_role, on_cache, on_bus,
}

unfoldable pub format_response : Entity Tenant → TenantResponseDto
format_response t = record {
  id = t.id;
  name = t.own.name;
  slug = t.own.slug;
  description = t.own.description;
  status = t.own.status;
  website = t.own.website;
  logo = t.own.logo;
  created_at = t.created_at;
  updated_at = t.updated_at;
}

abbrev pub id_not_found : String → Exception
id_not_found id =
    http_code 404 "TENANT_NOT_FOUND" (concat ("Tenant with ID '" ∷ id ∷ "' not found" ∷ []))

abbrev pub slug_not_found : String → Exception
slug_not_found slug =
    http_code 404 "TENANT_NOT_FOUND" (concat ("Tenant with slug '" ∷ slug ∷ "' not found" ∷ []))

abbrev pub duplicate_slug : String → Exception
duplicate_slug slug =
    http_code 400 "DUPLICATE_SLUG" (concat ("Tenant with slug '" ∷ slug ∷ "' already exists" ∷ []))

abbrev pub with_id : String → Where Tenant
with_id id t = t.id == id

abbrev pub with_slug : String → Where Tenant
with_slug slug t = t.own.slug == slug

abbrev pub same_status : TenantStatus → TenantStatus → Bool
same_status active active = true
same_status inactive inactive = true
same_status suspended suspended = true
same_status archived archived = true
same_status _ _ = false

-- `cacheService.get<TenantResponseDto>`.
abbrev pub as_tenant : Option Cached → Option TenantResponseDto
as_tenant none = none
as_tenant (some (user d)) = none
as_tenant (some (tenant d)) = some d
as_tenant (some (permissions ps)) = none
as_tenant (some (role_names ns)) = none

abbrev pub new_tenant : CreateTenantPayload → Tenant
new_tenant payload = record {
  name = payload.name;
  slug = payload.slug;
  description = payload.description;
  status = active;
  website = payload.website;
  logo = payload.logo;
}

abbrev or_else : {A : Type 0} → Option A → Option A → Option A
or_else none y = y
or_else (some x) y = some x

-- The row after `Object.assign(tenant, payload)` and a save, which leaves undefined fields alone.
abbrev pub assign : UpdateTenantPayload → Tenant → Tenant
assign payload t = record {
  name = get_or payload.name t.name;
  slug = get_or payload.slug t.slug;
  description = or_else payload.description t.description;
  status = get_or payload.status t.status;
  website = or_else payload.website t.website;
  logo = or_else payload.logo t.logo;
}

-- `formatResponse` of the saved entity, which has the undefined fields of the body.
unfoldable pub updated_response : UpdateTenantPayload → Entity Tenant → UpdatedTenant
updated_response payload t = record {
  id = t.id;
  name = payload.name;
  slug = payload.slug;
  description = payload.description;
  status = payload.status;
  website = payload.website;
  logo = payload.logo;
  created_at = t.created_at;
  updated_at = t.updated_at;
}

module _ (g : Gateway) where
  unfoldable pub create : CreateTenantPayload → ℕ → M (State g) TenantResponseDto
  unfolding format_response initialize_tenant publish_tenant_created
  create payload now = do
    existing ← gets (λ s. g.tenants.find_one (with_slug payload.slug) s.tenants)
    refuse_if (is_some existing) (duplicate_slug payload.slug)
    saved ← insert_tenant g (new_tenant payload)
    on_cache g
        (Redis.set g.cache (Redis.tenant_key saved.id) (tenant (format_response saved)) (some 300))
    on_cache g (Redis.del g.cache Redis.tenant_list_key)
    (λ s. (ok tt, (initialize_tenant g saved.id s).1))
    on_bus g (
        publish_tenant_created g.kafka
          (record {
            tenant_id = saved.id;
            name = saved.own.name;
            slug = saved.own.slug;
            created_at = saved.created_at;
          })
          now)
    pure (format_response saved)

  load_by_id : String → M (State g) TenantResponseDto
  load_by_id id = do
    found ← gets (λ s. g.tenants.find_one (with_id id) s.tenants)
    t ← or_throw found (id_not_found id)
    on_cache g (Redis.set g.cache (Redis.tenant_key id) (tenant (format_response t)) (some 300))
    pure (format_response t)

  unfoldable pub find_by_id : String → M (State g) TenantResponseDto
  unfolding load_by_id
  find_by_id id s = elim (as_tenant (Redis.get g.cache (Redis.tenant_key id) s.cache)) [
    | none ↦ load_by_id id s
    | some cached ↦ pure cached s
  ]

  unfoldable pub find_by_slug : String → M (State g) TenantResponseDto
  find_by_slug slug = do
    found ← gets (λ s. g.tenants.find_one (with_slug slug) s.tenants)
    t ← or_throw found (slug_not_found slug)
    pure (format_response t)

  -- `ilike` is the database's `ILIKE '%search%'` on a column.
  abbrev pub list_where :
      (String → String → Bool) → Option String → Option TenantStatus → Where Tenant
  list_where ilike search status t =
      (elim search [ none ↦ true | some q ↦ ilike q t.own.name || ilike q t.own.slug ])
      && (elim status [ none ↦ true | some st ↦ same_status t.own.status st ])

  unfoldable pub find_all :
      (String → String → Bool)
      → ℕ
      → ℕ
      → Option String
      → Option TenantStatus
      → M (State g) (List TenantResponseDto × ℕ)
  find_all ilike page limit search status = do
    let window = page_window page limit
    found ← gets (λ s.
        g.tenants.find_page (list_where ilike (truthy search) status) window.0 window.1 s.tenants)
    pure (map format_response found.0, found.1)

  -- The test of `update` on a new slug: whether another row must not have it.
  abbrev pub changes_slug : Option String → Entity Tenant → Option String
  changes_slug slug t = elim (truthy slug) [
    | none ↦ none
    | some new ↦ if new == t.own.slug then none else some new
  ]

  unfoldable pub check_slug : Option String → Entity Tenant → M (State g) (Unit {0})
  check_slug slug t s = elim (changes_slug slug t) [
    | none ↦ (ok tt, s)
    | some new ↦
        refuse_if (is_some (g.tenants.find_one (with_slug new) s.tenants)) (duplicate_slug new) s
  ]

  unfoldable pub update : String → UpdateTenantPayload → ℕ → M (State g) UpdatedTenant
  unfolding check_slug publish_tenant_updated updated_response
  update id payload now = do
    found ← gets (λ s. g.tenants.find_one (with_id id) s.tenants)
    t ← or_throw found (id_not_found id)
    check_slug payload.slug t
    updated ← save_tenant g (record t { own = assign payload t.own })
    on_cache g (Redis.invalidate_tenant g.cache updated.id)
    on_bus g (
        publish_tenant_updated g.kafka
          (record {
            tenant_id = updated.id;
            name = payload.name;
            slug = payload.slug;
            updated_at = updated.updated_at;
          })
          now)
    pure (updated_response payload updated)

  unfoldable pub delete : String → ℕ → ℕ → M (State g) (Unit {0})
  unfolding publish_tenant_deleted
  delete id deleted_at now = do
    found ← gets (λ s. g.tenants.find_one (with_id id) s.tenants)
    t ← or_throw found (id_not_found id)
    remove_tenant g t
    on_cache g (Redis.invalidate_tenant g.cache id)
    on_bus g
        (publish_tenant_deleted g.kafka (record { tenant_id = none; deleted_at = deleted_at }) now)
