-- ===== src/Controllers/Rbac/Lockout.antt =====
-- The controller of the roles before anybody has a role. `assignRole` is the only caller of the
-- service's assignRoleToUser.
use multi_tenant_saas_gatewa.Common.{
  ℕ, String, List, Option-cases, ◌∷◌, ◌≡◌, refl, ap, inl, inr, some, [], arith,
}
use multi_tenant_saas_gatewa.Common.Outcome.{ok, throw, Exception, http_code}
use multi_tenant_saas_gatewa.Database.{Entity, IsLawful}
use multi_tenant_saas_gatewa.Database.Laws.{Result-cases, find_one_cases}
use multi_tenant_saas_gatewa.Entities.{permissions, User, PermissionRequirement}
use multi_tenant_saas_gatewa.Redis.{IsLawfulCache}
use multi_tenant_saas_gatewa.Redis
use multi_tenant_saas_gatewa.Redis.Reads.{get-set}
use multi_tenant_saas_gatewa.Users.{with_id}
use multi_tenant_saas_gatewa.Gateway.{Gateway, State}
use multi_tenant_saas_gatewa.Auth.{AuthenticatedUser}
use multi_tenant_saas_gatewa.Rbac.{
  as_permissions, perms_key, get_user_permissions, check_permissions, can_activate, has_permission,
  collect, permissions_of, roles_of, related, concat_map,
}
use multi_tenant_saas_gatewa.Http.Request.{Request}
use multi_tenant_saas_gatewa.Http.Filter.{failed, build_error_response}
use multi_tenant_saas_gatewa.Http.Guards.{jwt_guard}
use multi_tenant_saas_gatewa.Http.Middleware.{resolve_tenant}
use multi_tenant_saas_gatewa.Controllers.{Context, serve, admit}
use multi_tenant_saas_gatewa.Controllers.Rbac.{
  Route, all_permissions, all_roles, new_role, role_deletion, assignment, removal, roles_of_user,
  required, guards, handle,
}

-- The answer to a user without the permissions.
abbrev forbidden : Exception
forbidden = http_code 403 "FORBIDDEN" "Missing required permissions"

module _ (g : Gateway) (U : IsLawful g.users) (C : IsLawfulCache g.cache) where
  -- No user has a role, and whatever is cached of the permissions of a user is the empty list.
  pub record Locked (s : State g) : Type 0 where
    pub roleless : (i : String) (u : Entity User) → U.row s.users i ≡ some u → u.own.roles ≡ []
    pub nothing_cached :
        (tenant_id user_id : String) (ps : List PermissionRequirement)
        → as_permissions (Redis.get g.cache (perms_key tenant_id user_id) s.cache) ≡ some ps
        → ps ≡ []

  permissions_of_roleless :
      (s : State g) (u : Entity User) → u.own.roles ≡ [] → permissions_of g s u ≡ []
  unfolding permissions_of roles_of related concat_map
  permissions_of_roleless s u none_held = rw none_held refl

  -- The state after an empty list was cached.
  abbrev caching_nothing : String → String → State g → State g
  caching_nothing tenant_id user_id s = record s {
    cache = Redis.set g.cache (perms_key tenant_id user_id) (permissions []) (some 300) s.cache;
  }

  caching_nothing-Locked :
      (tenant_id user_id : String) (s : State g)
      → Locked s
      → Locked (caching_nothing tenant_id user_id s)
  caching_nothing-Locked tenant_id user_id s locked = record {
    roleless = locked.roleless;
    nothing_cached = λ t u ps h. ground (
      arith,
      h,
      get-set C s.cache (perms_key tenant_id user_id) (perms_key t u) (permissions []) (some 300),
      locked.nothing_cached t u ps,
    );
  }

  get_user_permissions-Locked :
      (user_id tenant_id : String) (s : State g)
      → Locked s
      → (t : State g) × (get_user_permissions g user_id tenant_id s ≡ (ok [], t))
        × Locked t
        × (t ≡ record s { cache = t.cache })
  unfolding get_user_permissions collect
  get_user_permissions-Locked user_id tenant_id s locked =
      elim (Option-cases
        (as_permissions (Redis.get g.cache (perms_key tenant_id user_id) s.cache))) [
          | inr (ps, hit) ↦ (
            s,
            rw (hit, get_user_permissions)
                (ap (λ l. (ok l, s)) (locked.nothing_cached tenant_id user_id ps hit)),
            locked,
            refl,
          )
          | inl absent ↦
              elim (find_one_cases U (with_id tenant_id user_id) user_id (with_id tenant_id user_id)
                s.users) [
                  | inl missing ↦ (s, rw (absent, missing, get_user_permissions) refl, locked, refl)
                  | inr (u, found, row, passed) ↦ (
                    caching_nothing tenant_id user_id s,
                    rw (absent, found, get_user_permissions)
                        (ap
                          (λ ps. (
                            ok (collect [] ps),
                            record s {
                              cache =
                                  Redis.set g.cache (perms_key tenant_id user_id)
                                    (permissions (collect [] ps)) (some 300) s.cache;
                            },
                          ))
                          (permissions_of_roleless s u (locked.roleless u.id u row))),
                    caching_nothing-Locked tenant_id user_id s locked,
                    refl,
                  )
                ]
        ]

  -- A user without permissions is refused by the guard.
  can_activate-Locked :
      (a : AuthenticatedUser) (r : PermissionRequirement) (rs : List PermissionRequirement)
      (s : State g)
      → Locked s
      → (e : Exception) × (t : State g) × (can_activate g (r ∷ rs) [] (some a) s ≡ (throw e, t))
        × Locked t
        × (t ≡ record s { cache = t.cache })
  unfolding can_activate check_permissions has_permission
  can_activate-Locked a r rs s locked =
      let (t, answer, kept, same) = get_user_permissions-Locked a.user_id a.tenant_id s locked in
      (forbidden, t, rw (answer, can_activate, check_permissions) refl, kept, same)

module _ (g : Gateway) (U : IsLawful g.users) (C : IsLawfulCache g.cache) (c : Context) where
  guards-Locked :
      (q : Request) (r : PermissionRequirement) (rs : List PermissionRequirement) (s : State g)
      → Locked g U C s
      → (e : Exception) × (t : State g) × (guards g c (r ∷ rs) q s ≡ (throw e, t))
        × Locked g U C t
        × (t ≡ record s { cache = t.cache })
  unfolding guards admit
  guards-Locked q r rs s locked = elim (Result-cases (resolve_tenant q)) [
    | inl (e, refused) ↦ (e, s, rw refused refl, locked, refl)
    | inr (tenant_id, resolved) ↦ elim (Result-cases (jwt_guard c.jwt c.secret q)) [
      | inl (e, refused) ↦ (e, s, rw (resolved, refused) refl, locked, refl)
      | inr (a, accepted) ↦
          let (e, t, answer, kept, same) = can_activate-Locked g U C a r rs s locked in
          (e, t, rw (resolved, accepted, answer) refl, kept, same)
    ]
  ]

  required_one :
      (route : Route)
      → (r : PermissionRequirement) × (rs : List PermissionRequirement) × (required route ≡ r ∷ rs)
  required_one all_permissions = (_, _, refl)
  required_one all_roles = (_, _, refl)
  required_one (new_role dto) = (_, _, refl)
  required_one (role_deletion id) = (_, _, refl)
  required_one (assignment user_id role_id) = (_, _, refl)
  required_one (removal user_id role_id) = (_, _, refl)
  required_one (roles_of_user user_id) = (_, _, refl)

  -- While no user has a role, and no permission of a user is cached, the guards throw on every request
  -- to the controller of the roles, whatever the route and the token, and the answer is the response to
  -- what they throw, with the state that they leave: nothing but the cache has changed, and there is
  -- still no user with a role and no permission cached.
  pub handle-Locked :
      (q : Request) (uuid : String) (timestamp : ℕ) (route : Route) (s : State g)
      → Locked g U C s
      → (e : Exception) × (t : State g) × (handle g c q uuid timestamp route s
          ≡ (failed (build_error_response e q timestamp), t))
        × (guards g c (required route) q s ≡ (throw e, t))
        × Locked g U C t
        × (t ≡ record s { cache = t.cache })
  unfolding handle serve
  handle-Locked q uuid timestamp route s locked =
      let (r, rs, requires) = required_one route in
      let (e, t, refused, kept, same) = guards-Locked q r rs s locked in
      (e, t, rw (requires, refused) refl, rw requires refused, kept, same)
