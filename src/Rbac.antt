-- ===== src/Rbac.antt =====
-- src/modules/rbac: rbac.service.ts and rbac.guard.ts. A relation that a query loads is read from the
-- other table by the related ids; an id without a row gives nothing.
pub mod Grants
pub mod Complete
pub mod Guard
mod Tests
use multi_tenant_saas_gatewa.Common.{
  ℕ, String, ◌≡◌, Bool, true, false, not, ◌&&◌, ◌||◌, Option, none, some, List, [], ◌∷◌, ◌++◌, ◌==◌,
  if◌then◌else◌, concat, is_some, map, any, all, filter,
}
use multi_tenant_saas_gatewa.Common.Outcome.{
  Result, ok, throw, M, pure, raise, gets, after, ◌>>=◌, ◌>>◌, refuse_if, or_throw, error,
  http_code, Exception,
}
use multi_tenant_saas_gatewa.Database.{Entity, Repository}
use multi_tenant_saas_gatewa.Entities.{
  User, Role, Permission, Cached, user, tenant, permissions, role_names, PermissionRequirement,
}
use multi_tenant_saas_gatewa.Auth.{AuthenticatedUser}
use multi_tenant_saas_gatewa.Redis
use multi_tenant_saas_gatewa.Users.{with_id}
use multi_tenant_saas_gatewa.Gateway.{Gateway, State, save_user, insert_role, remove_role, on_cache}

unfoldable pub perms_key : String → String → String
perms_key tenant_id user_id = concat ("rbac:perms:" ∷ tenant_id ∷ ":" ∷ user_id ∷ [])

unfoldable pub roles_key : String → String → String
roles_key tenant_id user_id = concat ("rbac:roles:" ∷ tenant_id ∷ ":" ∷ user_id ∷ [])

-- `cacheService.get<PermissionRequirement[]>` and `cacheService.get<string[]>`.
abbrev pub as_permissions : Option Cached → Option (List PermissionRequirement)
as_permissions none = none
as_permissions (some (user d)) = none
as_permissions (some (tenant d)) = none
as_permissions (some (permissions ps)) = some ps
as_permissions (some (role_names ns)) = none

abbrev pub as_role_names : Option Cached → Option (List String)
as_role_names none = none
as_role_names (some (user d)) = none
as_role_names (some (tenant d)) = none
as_role_names (some (permissions ps)) = none
as_role_names (some (role_names ns)) = some ns

-- The rows with the given ids.
unfoldable pub related : {F : Type 0} (R : Repository F) → R.Table → List String → List (Entity F)
related R t [] = []
related R t (i ∷ is) = elim (R.find_one (λ e. e.id == i) t) [
  | none ↦ related R t is
  | some e ↦ e ∷ related R t is
]

abbrev pub requirement_of : Permission → PermissionRequirement
requirement_of p = record { resource = p.resource; action = p.action }

unfoldable pub permission_key : PermissionRequirement → String
permission_key p = concat (p.resource ∷ ":" ∷ p.action ∷ [])

-- The two loops of `getUserPermissions`, over all permissions of all roles in order, with the set
-- `seen`; what they push is in the order of the pushes.
unfoldable pub collect : List String → List (Entity Permission) → List PermissionRequirement
unfolding permission_key
collect seen [] = []
collect seen (p ∷ ps) =
    let key = permission_key (requirement_of p.own) in
    let skipped = collect seen ps in
    let pushed = collect (key ∷ seen) ps in
    if not p.own.is_active
    then skipped
    else (if Redis.contains seen key then skipped else requirement_of p.own ∷ pushed)

unfoldable pub has_permission : List PermissionRequirement → List PermissionRequirement → Bool
has_permission user_permissions required =
    all (λ r. any (λ p. p.resource == r.resource && p.action == r.action) user_permissions) required

unfoldable pub has_role : List String → List String → Bool
has_role user_roles required = any (λ r. any (λ n. n == r) user_roles) required

abbrev pub some_of : {A : Type 0} → List A → Bool
some_of [] = false
some_of (x ∷ xs) = true

unfoldable pub concat_map : {A B : Type 0} → (A → List B) → List A → List B
concat_map f [] = []
concat_map f (x ∷ xs) = f x ++ concat_map f xs

module _ (g : Gateway) where
  unfoldable pub roles_of : State g → Entity User → List (Entity Role)
  unfolding related
  roles_of s u = related g.roles s.roles u.own.roles

  unfoldable pub permissions_of : State g → Entity User → List (Entity Permission)
  unfolding related roles_of concat_map
  permissions_of s u =
      concat_map (λ r. related g.permissions s.permissions r.own.permissions) (roles_of s u)

  unfoldable pub get_user_permissions : String → String → M (State g) (List PermissionRequirement)
  unfolding permissions_of collect
  get_user_permissions user_id tenant_id s =
      elim (as_permissions (Redis.get g.cache (perms_key tenant_id user_id) s.cache)) [
        | some cached ↦ pure cached s
        | none ↦ elim (g.users.find_one (with_id tenant_id user_id) s.users) [
          | none ↦ pure [] s
          | some u ↦
              (do
                let found = collect [] (permissions_of s u)
                on_cache g
                    (Redis.set g.cache (perms_key tenant_id user_id) (permissions found) (some 300))
                pure found)
                s
        ]
      ]

  unfoldable pub get_user_role_names : String → String → M (State g) (List String)
  unfolding roles_of
  get_user_role_names user_id tenant_id s =
      elim (as_role_names (Redis.get g.cache (roles_key tenant_id user_id) s.cache)) [
        | some cached ↦ pure cached s
        | none ↦ elim (g.users.find_one (with_id tenant_id user_id) s.users) [
          | none ↦ pure [] s
          | some u ↦
              (do
                let found = map (λ r. r.own.name) (roles_of s u)
                on_cache g
                    (Redis.set g.cache (roles_key tenant_id user_id) (role_names found) (some 300))
                pure found)
                s
        ]
      ]

  unfoldable pub invalidate_user_rbac_cache : String → String → M (State g) (Unit {0})
  invalidate_user_rbac_cache user_id tenant_id = do
    on_cache g (Redis.del g.cache (perms_key tenant_id user_id))
    on_cache g (Redis.del g.cache (roles_key tenant_id user_id))

  unfoldable pub assign_role_to_user : String → String → String → M (State g) (Unit {0})
  unfolding invalidate_user_rbac_cache
  assign_role_to_user user_id role_id tenant_id = do
    found ← gets (λ s. g.users.find_one (with_id tenant_id user_id) s.users)
    role ←
        gets (λ s. g.roles.find_one (λ r. r.id == role_id && r.own.tenant_id == tenant_id) s.roles)
    u ← or_throw found (error "User or role not found in this tenant")
    r ← or_throw role (error "User or role not found in this tenant")
    if any (λ i. i == role_id) u.own.roles then pure tt else (do
      _ ← save_user g (record u { own = record (u.own) { roles = u.own.roles ++ (r.id ∷ []) } })
      invalidate_user_rbac_cache user_id tenant_id)

  unfoldable pub remove_role_from_user : String → String → String → M (State g) (Unit {0})
  unfolding invalidate_user_rbac_cache
  remove_role_from_user user_id role_id tenant_id = do
    found ← gets (λ s. g.users.find_one (with_id tenant_id user_id) s.users)
    u ← or_throw found (error "User not found in this tenant")
    _ ←
        save_user g (record u {
          own = record (u.own) { roles = filter (λ i. not (i == role_id)) u.own.roles };
        })
    invalidate_user_rbac_cache user_id tenant_id

  unfoldable pub create_role :
      String → String → Option String → Option (List String) → M (State g) (Entity Role)
  create_role tenant_id name description permission_ids = do
    found ← gets (λ s. elim permission_ids [
      | none ↦ []
      | some ids ↦
          map (λ p. p.id) (g.permissions.find (λ p. any (λ i. i == p.id) ids) s.permissions)
    ])
    insert_role g (record {
      tenant_id = tenant_id;
      name = name;
      description = description;
      is_system = false;
      permissions = found;
    })

  unfoldable pub list_roles : String → M (State g) (List (Entity Role))
  list_roles tenant_id = gets (λ s. g.roles.find (λ r. r.own.tenant_id == tenant_id) s.roles)

  unfoldable pub list_permissions : M (State g) (List (Entity Permission))
  list_permissions = gets (λ s. g.permissions.find (λ p. p.own.is_active) s.permissions)

  unfoldable pub delete_role : String → String → M (State g) (Unit {0})
  delete_role role_id tenant_id = do
    found ←
        gets (λ s. g.roles.find_one (λ r. r.id == role_id && r.own.tenant_id == tenant_id) s.roles)
    role ← or_throw found (error "Role not found")
    refuse_if role.own.is_system (error "Cannot delete system roles")
    remove_role g role

abbrev pub join_comma : List String → String
join_comma [] = ""
join_comma (x ∷ xs) = elim xs [ [] ↦ x | ◌∷◌ y ys ↦ concat (x ∷ ", " ∷ join_comma xs ∷ []) ]

module _ (g : Gateway) where
  unfoldable pub check_roles : AuthenticatedUser → List String → M (State g) (Unit {0})
  unfolding get_user_role_names
  check_roles caller required = do
    user_roles ← get_user_role_names g caller.user_id caller.tenant_id
    refuse_if (not (has_role user_roles required))
        (http_code 403 "FORBIDDEN" (concat ("Required roles: " ∷ join_comma required ∷ [])))

  unfoldable pub check_permissions :
      AuthenticatedUser → List PermissionRequirement → M (State g) (Unit {0})
  unfolding get_user_permissions
  check_permissions caller required = do
    user_permissions ← get_user_permissions g caller.user_id caller.tenant_id
    refuse_if (not (has_permission user_permissions required))
        (http_code 403 "FORBIDDEN" "Missing required permissions")

  -- `canActivate`, with the metadata of the route; missing metadata is the empty list.
  unfoldable pub can_activate :
      List PermissionRequirement → List String → Option AuthenticatedUser → M (State g) Bool
  unfolding check_roles check_permissions
  can_activate required_permissions required_roles caller =
      if not (some_of required_permissions) && not (some_of required_roles) then pure true else (do
        u ← or_throw caller (http_code 401 "UNAUTHORIZED" "Authentication required")
        if some_of required_roles then check_roles u required_roles else pure tt
        if some_of required_permissions then check_permissions u required_permissions else pure tt
        pure true)
