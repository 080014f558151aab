-- ===== src/Rbac/Tests.antt =====
-- Roles and permissions on the gateway in memory.
use multi_tenant_saas_gatewa.Common.{
  String, ◌≡◌, refl, ◌⊎◌, In, all, inl, inr, true, false, none, some, List, [], ◌∷◌, string_dec,
  concat,
}
use multi_tenant_saas_gatewa.Common.Outcome.{ok}
use multi_tenant_saas_gatewa.Database.{Entity}
use multi_tenant_saas_gatewa.Database.Memory.{memory}
use multi_tenant_saas_gatewa.Entities.{User, Role, Permission, PermissionRequirement, permissions}
use multi_tenant_saas_gatewa.Redis.{get, set, add_key}
use multi_tenant_saas_gatewa.Gateway.{State}
use multi_tenant_saas_gatewa.Gateway.Memory.{
  example, users-IsLawful, cache_of_entries, cache_of_entries-IsLawfulCache, lookup, without,
}
use multi_tenant_saas_gatewa.Users.Tests.{ada, one_user}
use multi_tenant_saas_gatewa.Auth.{AuthenticatedUser}
use multi_tenant_saas_gatewa.Rbac.{
  perms_key, roles_key, collect, permission_key, has_permission, has_role, related, concat_map,
  roles_of, permissions_of, get_user_permissions, get_user_role_names, check_roles,
  check_permissions, can_activate, remove_role_from_user, delete_role, invalidate_user_rbac_cache,
}
use multi_tenant_saas_gatewa.Rbac.Complete.{granted, Separated, has_permission-collect}
use multi_tenant_saas_gatewa.Rbac.Guard.{Uncached, Authorized, can_activate_sound}

abbrev editor : Entity Role
editor = record {
  base = record { id = "r1"; created_at = 0; updated_at = 0; deleted_at = none };
  own = record {
    tenant_id = "acme";
    name = "editor";
    description = none;
    is_system = false;
    permissions = "p1" ∷ [];
  };
}

abbrev write_users : Entity Permission
write_users = record {
  base = record { id = "p1"; created_at = 0; updated_at = 0; deleted_at = none };
  own = record { resource = "users"; action = "write"; is_active = true };
}

abbrev wanted : PermissionRequirement
wanted = record { resource = "users"; action = "write" }

abbrev holder : Entity User
holder = record ada { own = record (ada.own) { roles = "r1" ∷ [] } }

unfoldable start : State example
unfolding memory one_user
start = record one_user { users = holder ∷ []; roles = editor ∷ []; permissions = write_users ∷ [] }

abbrev caller : AuthenticatedUser
caller = record { user_id = "u1"; email = "ada@acme"; tenant_id = "acme" }

start-Uncached : Uncached example users-IsLawful cache_of_entries-IsLawfulCache "acme" "u1" start
unfolding start one_user cache_of_entries lookup get
start-Uncached = record { no_permissions = refl; no_roles = refl }

unfoldable allowed : State example
unfolding start
allowed = (can_activate example (wanted ∷ []) ("editor" ∷ []) (some caller) start).1

lets_through :
    can_activate example (wanted ∷ []) ("editor" ∷ []) (some caller) start ≡ (ok true, allowed)
unfolding can_activate check_roles check_permissions get_user_permissions get_user_role_names
    collect permission_key has_permission has_role related concat_map roles_of permissions_of
    perms_key roles_key memory cache_of_entries lookup without get set add_key string_dec concat
    start one_user allowed
lets_through = refl

can_activate_sound_example :
    (((wanted ∷ []) ≡ []) × (◌≡◌ {A = List String} ("editor" ∷ []) []))
    ⊎ Authorized example users-IsLawful cache_of_entries-IsLawfulCache
        (wanted ∷ [])
        ("editor" ∷ [])
        caller
        start
can_activate_sound_example =
    can_activate_sound example users-IsLawful cache_of_entries-IsLawfulCache (wanted ∷ [])
      ("editor" ∷ []) caller start allowed start-Uncached lets_through

wanted_apart : (r : PermissionRequirement) → In r (wanted ∷ []) → Separated (write_users ∷ []) r
wanted_apart r at p in_table same = elim at [
  | inl is_wanted ↦ elim in_table [
    | inl is_write ↦ rw (is_wanted, is_write) (refl, refl)
    | inr nowhere ↦ absurd nowhere
  ]
  | inr nowhere ↦ absurd nowhere
]

has_permission-collect_example :
    has_permission (collect [] (write_users ∷ [])) (wanted ∷ [])
    ≡ all (granted (write_users ∷ [])) (wanted ∷ [])
has_permission-collect_example =
    has_permission-collect (write_users ∷ []) (wanted ∷ []) wanted_apart

unfoldable removed : State example
unfolding start
removed = (remove_role_from_user example "u1" "r1" "acme" start).1

removes : remove_role_from_user example "u1" "r1" "acme" start ≡ (ok tt, removed)
unfolding remove_role_from_user invalidate_user_rbac_cache memory string_dec start one_user removed
removes = refl

unfoldable warm : State example
unfolding start
warm = record start {
  cache =
      set example.cache (perms_key "acme" "u1") (permissions (wanted ∷ [])) (some 300) start.cache;
}

unfoldable without_role : State example
unfolding memory start warm
without_role = record warm { roles = [] }

deletes : delete_role example "r1" "acme" warm ≡ (ok tt, without_role)
unfolding delete_role memory string_dec start one_user warm without_role
deletes = refl
