-- ===== src/Users.antt =====
-- src/modules/users/services/user.service.ts: the users of a tenant, with a cached copy of each.
pub mod Emails
pub mod Steps
pub mod Cache
pub mod Table
pub mod Tests
use multi_tenant_saas_gatewa.Common.{
  ℕ, ◌-◌, ◌*◌, String, ◌≡◌, Bool, true, false, not, ◌&&◌, ◌||◌, Option, none, some, List, [], ◌∷◌,
  ◌==◌, if◌then◌else◌, concat, get_or, is_some, map, min, truthy,
}
use multi_tenant_saas_gatewa.Common.Outcome.{
  Result, ok, throw, M, pure, raise, gets, after, ◌>>=◌, ◌>>◌, refuse_if, or_throw, http_code,
  not_found, Exception,
}
use multi_tenant_saas_gatewa.Database.{Entity, Where, Repository}
use multi_tenant_saas_gatewa.Entities.{
  User, UserStatus, active, inactive, pending, archived, UserResponseDto, Cached, user, tenant,
  permissions, role_names, PermissionRequirement, TenantResponseDto,
}
use multi_tenant_saas_gatewa.Redis
use multi_tenant_saas_gatewa.Events.{
  UserCreatedEvent, UserUpdatedEvent, UserDeletedEvent, publish_user_created, publish_user_updated,
  publish_user_deleted,
}
use multi_tenant_saas_gatewa.Gateway.{
  Gateway, State, insert_user, save_user, remove_user, on_cache, on_bus_logged,
}

pub record CreateUserPayload : Type 0 where
  pub email : String
  pub name : String
  pub password : String

pub record UpdateUserPayload : Type 0 where
  pub name : Option String
  pub status : Option UserStatus

unfoldable pub format_response : Entity User → UserResponseDto
format_response u = record {
  id = u.id;
  email = u.own.email;
  name = u.own.name;
  tenant_id = u.own.tenant_id;
  status = u.own.status;
  last_login_at = u.own.last_login_at;
  created_at = u.created_at;
  updated_at = u.updated_at;
}

abbrev pub tenant_not_found : String → Exception
tenant_not_found tenant_id =
    http_code 404 "TENANT_NOT_FOUND" (concat ("Tenant with ID '" ∷ tenant_id ∷ "' not found" ∷ []))

abbrev pub email_exists : String → Exception
email_exists email =
    http_code 409 "EMAIL_ALREADY_EXISTS"
      (concat ("User with email '" ∷ email ∷ "' already exists in this tenant" ∷ []))

abbrev pub user_not_found : String → Exception
user_not_found user_id =
    http_code 404 "USER_NOT_FOUND" (concat ("User with ID '" ∷ user_id ∷ "' not found" ∷ []))

abbrev pub email_not_found : String → Exception
email_not_found email =
    http_code 404 "USER_NOT_FOUND" (concat ("User with email '" ∷ email ∷ "' not found" ∷ []))

-- The `where` objects.
abbrev pub with_email : String → String → Where User
with_email tenant_id email u = u.own.email == email && u.own.tenant_id == tenant_id

abbrev pub with_id : String → String → Where User
with_id tenant_id user_id u = u.id == user_id && u.own.tenant_id == tenant_id

abbrev pub same_status : UserStatus → UserStatus → Bool
same_status active active = true
same_status inactive inactive = true
same_status pending pending = true
same_status archived archived = true
same_status _ _ = false

-- `cacheService.get<UserResponseDto>`; another kind of value is never under a key of a user.
abbrev pub as_user : Option Cached → Option UserResponseDto
as_user none = none
as_user (some (user d)) = some d
as_user (some (tenant d)) = none
as_user (some (permissions d)) = none
as_user (some (role_names d)) = none

-- The user that `create` saves.
abbrev pub new_user : String → CreateUserPayload → String → User
new_user tenant_id payload password_hash = record {
  tenant_id = tenant_id;
  email = payload.email;
  name = payload.name;
  password_hash = password_hash;
  status = active;
  email_verified = false;
  email_verified_at = none;
  last_login_at = none;
  roles = [];
}

-- The assignments of `update`.
abbrev pub apply_update : UpdateUserPayload → User → User
apply_update payload u = record u {
  name = get_or payload.name u.name;
  status = get_or payload.status u.status;
}

-- `safeLimit` and `skip`; a page is at least 1, which the controller's DTO sees to.
unfoldable pub page_window : ℕ → ℕ → ℕ × ℕ
page_window page limit = ((page - 1) * min limit 100, min limit 100)

module _ (g : Gateway) (cache_ttl : ℕ) where
  unfoldable pub create : String → CreateUserPayload → String → ℕ → M (State g) UserResponseDto
  unfolding format_response publish_user_created
  create tenant_id payload salt now = do
    found ← gets (λ s. g.tenants.find_one (λ t. t.id == tenant_id) s.tenants)
    refuse_if (not (is_some found)) (tenant_not_found tenant_id)
    existing ← gets (λ s. g.users.find_one (with_email tenant_id payload.email) s.users)
    refuse_if (is_some existing) (email_exists payload.email)
    saved ← insert_user g (new_user tenant_id payload (g.bcrypt.hash salt 10 payload.password))
    on_cache g (
        Redis.set g.cache (Redis.user_key saved.id) (user (format_response saved)) (some cache_ttl))
    on_cache g (Redis.del g.cache (Redis.user_list_key tenant_id))
    on_bus_logged g (
        publish_user_created g.kafka
          (record {
            user_id = saved.id;
            email = saved.own.email;
            name = saved.own.name;
            tenant_id = saved.own.tenant_id;
            created_at = saved.created_at;
          })
          now)
    pure (format_response saved)

  -- The part of `findById` that runs when the cache does not answer.
  load_by_id : String → String → M (State g) UserResponseDto
  load_by_id tenant_id user_id = do
    found ← gets (λ s. g.users.find_one (with_id tenant_id user_id) s.users)
    u ← or_throw found (user_not_found user_id)
    on_cache g
        (Redis.set g.cache (Redis.user_key user_id) (user (format_response u)) (some cache_ttl))
    pure (format_response u)

  unfoldable pub find_by_id : String → String → M (State g) UserResponseDto
  unfolding load_by_id
  find_by_id tenant_id user_id s =
      elim (as_user (Redis.get g.cache (Redis.user_key user_id) s.cache)) [
        | none ↦ load_by_id tenant_id user_id s
        | some cached ↦
            if cached.tenant_id == tenant_id then pure cached s else load_by_id tenant_id user_id s
      ]

  unfoldable pub find_by_email : String → String → M (State g) UserResponseDto
  find_by_email tenant_id email = do
    found ← gets (λ s. g.users.find_one (with_email tenant_id email) s.users)
    u ← or_throw found (email_not_found email)
    pure (format_response u)

  -- `ilike` is the database's `ILIKE '%search%'` on a column.
  abbrev pub list_where :
      (String → String → Bool) → String → Option String → Option UserStatus → Where User
  list_where ilike tenant_id search status u =
      u.own.tenant_id == tenant_id
      && (elim search [ none ↦ true | some q ↦ ilike q u.own.email || ilike q u.own.name ])
      && (elim status [ none ↦ true | some st ↦ same_status u.own.status st ])

  unfoldable pub find_all_by_tenant :
      (String → String → Bool)
      → String
      → ℕ
      → ℕ
      → Option String
      → Option UserStatus
      → M (State g) (List UserResponseDto × ℕ)
  find_all_by_tenant ilike tenant_id page limit search status = do
    let window = page_window page limit
    found ← gets (λ s.
        g.users.find_page (list_where ilike tenant_id (truthy search) status) window.0 window.1
          s.users)
    pure (map format_response found.0, found.1)

  unfoldable pub update : String → String → UpdateUserPayload → ℕ → M (State g) UserResponseDto
  unfolding publish_user_updated
  update tenant_id user_id payload now = do
    found ← gets (λ s. g.users.find_one (with_id tenant_id user_id) s.users)
    u ← or_throw found (user_not_found user_id)
    updated ← save_user g (record u { own = apply_update payload u.own })
    on_cache g (Redis.invalidate_user g.cache updated.id tenant_id)
    on_bus_logged g (
        publish_user_updated g.kafka
          (record {
            user_id = updated.id;
            tenant_id = updated.own.tenant_id;
            updated_at = updated.updated_at;
          })
          now)
    pure (format_response updated)

  unfoldable pub delete : String → String → ℕ → ℕ → M (State g) (Unit {0})
  unfolding publish_user_deleted
  delete tenant_id user_id deleted_at now = do
    found ← gets (λ s. g.users.find_one (with_id tenant_id user_id) s.users)
    u ← or_throw found (user_not_found user_id)
    on_bus_logged g (
        publish_user_deleted g.kafka
          (record { user_id = u.id; tenant_id = u.own.tenant_id; deleted_at = deleted_at }) now)
    on_cache g (Redis.invalidate_user g.cache user_id u.own.tenant_id)
    remove_user g u
