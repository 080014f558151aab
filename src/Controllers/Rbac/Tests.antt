-- ===== src/Controllers/Rbac/Tests.antt =====
-- A request to the controller of the roles, on the gateway in memory.
use multi_tenant_saas_gatewa.Common.{
  arith, String, ◌≡◌, refl, inl, true, false, none, some, [], ◌∷◌, string_dec, concat, List,
}
use multi_tenant_saas_gatewa.Common.Outcome.{throw, ok, Exception}
use multi_tenant_saas_gatewa.Database.{Entity}
use multi_tenant_saas_gatewa.Database.Memory.{memory, memory-IsLawful}
use multi_tenant_saas_gatewa.Entities.{User, Role, Permission, PermissionRequirement}
use multi_tenant_saas_gatewa.Redis.{get, set, add_key}
use multi_tenant_saas_gatewa.Redis
use multi_tenant_saas_gatewa.Gateway.{State}
use multi_tenant_saas_gatewa.Gateway.Memory.{
  example, users-IsLawful, cache_of_entries, cache_of_entries-IsLawfulCache, lookup, without,
}
use multi_tenant_saas_gatewa.Users.Tests.{ada, one_user}
use multi_tenant_saas_gatewa.Auth.{AuthenticatedUser}
use multi_tenant_saas_gatewa.Rbac
use multi_tenant_saas_gatewa.Rbac.{
  as_permissions, perms_key, roles_key, collect, permission_key, has_permission, related,
  concat_map, roles_of, permissions_of, get_user_permissions, check_permissions, can_activate,
}
use multi_tenant_saas_gatewa.Rbac.Grants.{Grants}
use multi_tenant_saas_gatewa.Http.Filter.{answered, failed, respond, build_error_response}
use multi_tenant_saas_gatewa.Http.Middleware.{resolve_tenant, split_dots, extract_subdomain}
use multi_tenant_saas_gatewa.Http.Guards.{jwt_guard}
use multi_tenant_saas_gatewa.Http.Tests.{request_of_ada, tokens_for_ada}
use multi_tenant_saas_gatewa.Controllers.{Context, admit, serve}
use multi_tenant_saas_gatewa.Controllers.Rbac.Lockout.{Locked, handle-Locked}
use multi_tenant_saas_gatewa.Controllers.Rbac.{
  required, all_roles, role_list, guards, list_roles, dispatch, handle, handle_authorized,
}

abbrev context : Context
context = record { jwt = tokens_for_ada; secret = "s"; is_uuid = λ id. true }

abbrev reader : Entity Role
reader = record {
  base = record { id = "r1"; created_at = 0; updated_at = 0; deleted_at = none };
  own = record {
    tenant_id = "acme";
    name = "reader";
    description = none;
    is_system = false;
    permissions = "p1" ∷ [];
  };
}

abbrev read_roles : Entity Permission
read_roles = record {
  base = record { id = "p1"; created_at = 0; updated_at = 0; deleted_at = none };
  own = record { resource = "roles"; action = "read"; is_active = true };
}

unfoldable start : State example
unfolding memory one_user
start = record one_user {
  users = record ada { own = record (ada.own) { roles = "r1" ∷ [] } } ∷ [];
  roles = reader ∷ [];
  permissions = read_roles ∷ [];
}

unfoldable after_reading : State example
unfolding start
after_reading = (handle example context request_of_ada "id" 9 all_roles start).1

abbrev wanted : PermissionRequirement
wanted = record { resource = "roles"; action = "read" }

lists_roles :
    handle example context request_of_ada "id" 9 all_roles start
    ≡ (answered (200, role_list (reader ∷ [])), after_reading)
unfolding handle guards dispatch list_roles Rbac.list_roles serve respond admit resolve_tenant
    extract_subdomain split_dots jwt_guard tokens_for_ada can_activate check_permissions
    get_user_permissions collect permission_key has_permission related concat_map roles_of
    permissions_of perms_key roles_key memory cache_of_entries lookup without get set add_key
    string_dec concat start one_user after_reading
lists_roles = refl

nothing_cached :
    (a : AuthenticatedUser)
    → jwt_guard tokens_for_ada "s" request_of_ada ≡ ok a
    → as_permissions (Redis.get example.cache (perms_key a.tenant_id a.user_id) start.cache) ≡ none
unfolding start one_user cache_of_entries lookup get
nothing_cached a h = refl

handle_authorized_example :
    (a : AuthenticatedUser) × (u : Entity User) × (jwt_guard tokens_for_ada "s" request_of_ada
      ≡ ok a)
    × (users-IsLawful.row start.users a.user_id ≡ some u)
    × (u.own.tenant_id ≡ a.tenant_id)
    × Grants (permissions_of example start u) wanted
handle_authorized_example =
    handle_authorized example users-IsLawful cache_of_entries-IsLawfulCache context request_of_ada
      "id" 9 all_roles start after_reading (200, role_list (reader ∷ [])) wanted lists_roles
      (inl refl) nothing_cached

nobody :
    (i : String) (u : Entity User) → users-IsLawful.row one_user.users i ≡ some u → u.own.roles ≡ []
unfolding memory memory-IsLawful one_user
nobody i u row = ground (arith, row)

nothing_cached_yet :
    (tenant_id user_id : String) (ps : List PermissionRequirement)
    → as_permissions (Redis.get example.cache (perms_key tenant_id user_id) (one_user.cache))
      ≡ some ps
    → ps ≡ []
unfolding one_user cache_of_entries lookup get
nothing_cached_yet tenant_id user_id ps h = absurd (ground (arith, h))

handle-Locked_example :
    (e : Exception) × (t : State example) × (handle example context request_of_ada "id" 9 all_roles
        one_user
      ≡ (failed (build_error_response e request_of_ada 9), t))
    × (guards example context (required all_roles) request_of_ada one_user ≡ (throw e, t))
    × Locked example users-IsLawful cache_of_entries-IsLawfulCache t
    × (t ≡ record one_user { cache = t.cache })
handle-Locked_example =
    handle-Locked example users-IsLawful cache_of_entries-IsLawfulCache context request_of_ada "id"
      9 all_roles one_user (record { roleless = nobody; nothing_cached = nothing_cached_yet })
