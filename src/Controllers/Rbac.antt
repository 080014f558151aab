-- ===== src/Controllers/Rbac.antt =====
-- src/modules/rbac/rbac.controller.ts, behind `JwtGuard` and `RbacGuard`.
pub mod Lockout
mod Tests
use multi_tenant_saas_gatewa.Common.{
  ℕ, String, ◌≡◌, Bool, Bool-cases, In, arith, inl, inr, true, false, refl, ap, ◌∙◌, subst, Option,
  some, none, List, [], ◌∷◌, if◌then◌else◌,
}
use multi_tenant_saas_gatewa.Common.Outcome.{
  Result, ok, throw, M, pure, raise, ◌>>=◌, ◌>>◌, Exception, http_text,
}
use multi_tenant_saas_gatewa.Database.{Entity, IsLawful}
use multi_tenant_saas_gatewa.Entities.{User, Role, Permission, PermissionRequirement}
use multi_tenant_saas_gatewa.Gateway.{Gateway, State}
use multi_tenant_saas_gatewa.Auth.{AuthenticatedUser}
use multi_tenant_saas_gatewa.Redis
use multi_tenant_saas_gatewa.Redis.{IsLawfulCache}
use multi_tenant_saas_gatewa.Rbac.{permissions_of, as_permissions, perms_key}
use multi_tenant_saas_gatewa.Rbac
use multi_tenant_saas_gatewa.Rbac.Guard.{can_activate_permitted}
use multi_tenant_saas_gatewa.Rbac.Grants.{Grants}
use multi_tenant_saas_gatewa.Http.Middleware.{resolve_tenant}
use multi_tenant_saas_gatewa.Http.Guards.{jwt_guard}
use multi_tenant_saas_gatewa.Http.Request.{Request}
use multi_tenant_saas_gatewa.Http.Filter.{Response, answered}
use multi_tenant_saas_gatewa.Controllers.{
  Context, piped, admit, serve, serve_answered, after_answered, admit_ok,
}

-- `CreateRoleDto`.
pub record CreateRoleDto : Type 0 where
  pub name : String
  pub description : Option String
  pub permission_ids : Option (List String)

-- The routes, with their parameters and bodies.
pub data Route : Type 0 where
  all_permissions : Route
  all_roles : Route
  new_role : CreateRoleDto → Route
  role_deletion : String → Route
  assignment : String → String → Route
  removal : String → String → Route
  roles_of_user : String → Route

pub data Reply : Type 0 where
  permission_list : List (Entity Permission) → Reply
  role_list : List (Entity Role) → Reply
  role : Entity Role → Reply
  names : List String → Reply
  nothing : Reply

abbrev pub on_roles : String → List PermissionRequirement
on_roles action = record { resource = "roles"; action = action } ∷ []

-- `@RequirePermissions`.
abbrev pub required : Route → List PermissionRequirement
required all_permissions = on_roles "read"
required all_roles = on_roles "read"
required (new_role dto) = on_roles "create"
required (role_deletion id) = on_roles "delete"
required (assignment user_id role_id) = on_roles "update"
required (removal user_id role_id) = on_roles "update"
required (roles_of_user user_id) = on_roles "read"

abbrev pub success : Route → ℕ
success all_permissions = 200
success all_roles = 200
success (new_role dto) = 201
success (role_deletion id) = 204
success (assignment user_id role_id) = 204
success (removal user_id role_id) = 204
success (roles_of_user user_id) = 200

module _ (g : Gateway) (c : Context) where
  -- `JwtGuard` and `RbacGuard` on a route without `@RequireRoles`, with what Nest does when a guard
  -- answers false.
  unfoldable pub guards :
      List PermissionRequirement → Request → M (State g) (String × AuthenticatedUser)
  guards needed q = admit c q >>= λ p. Rbac.can_activate g needed [] (some p.1) >>= λ let_through.
      if let_through then pure p else raise (http_text 403 "Forbidden resource")

  unfoldable pub list_permissions : M (State g) (List (Entity Permission))
  list_permissions = Rbac.list_permissions g

  unfoldable pub list_roles : AuthenticatedUser → M (State g) (List (Entity Role))
  list_roles user = Rbac.list_roles g user.tenant_id

  unfoldable pub create_role : AuthenticatedUser → CreateRoleDto → M (State g) (Entity Role)
  create_role user dto =
      Rbac.create_role g user.tenant_id dto.name dto.description dto.permission_ids

  unfoldable pub delete_role : AuthenticatedUser → String → M (State g) (Unit {0})
  delete_role user id = piped c id (λ role_id. Rbac.delete_role g role_id user.tenant_id)

  unfoldable pub assign_role : AuthenticatedUser → String → String → M (State g) (Unit {0})
  assign_role user id role_id =
      piped c id (λ user_id. Rbac.assign_role_to_user g user_id role_id user.tenant_id)

  unfoldable pub remove_role : AuthenticatedUser → String → String → M (State g) (Unit {0})
  remove_role user id other_id = piped c id (λ user_id.
      piped c other_id (λ role_id. Rbac.remove_role_from_user g user_id role_id user.tenant_id))

  unfoldable pub get_user_roles : AuthenticatedUser → String → M (State g) (List String)
  get_user_roles user id = piped c id (λ user_id. Rbac.get_user_role_names g user_id user.tenant_id)

  unfoldable pub dispatch : AuthenticatedUser → Route → M (State g) Reply
  unfolding list_permissions list_roles create_role delete_role assign_role remove_role
      get_user_roles
  dispatch user all_permissions = list_permissions >>= λ ps. pure (permission_list ps)
  dispatch user all_roles = list_roles user >>= λ rs. pure (role_list rs)
  dispatch user (new_role dto) = create_role user dto >>= λ r. pure (role r)
  dispatch user (role_deletion id) = delete_role user id >>= λ _. pure nothing
  dispatch user (assignment user_id role_id) =
      assign_role user user_id role_id >>= λ _. pure nothing
  dispatch user (removal user_id role_id) = remove_role user user_id role_id >>= λ _. pure nothing
  dispatch user (roles_of_user user_id) = get_user_roles user user_id >>= λ ns. pure (names ns)

  unfoldable pub handle : Request → String → ℕ → Route → State g → Response (ℕ × Reply) × State g
  unfolding guards dispatch
  handle q uuid timestamp route =
      serve q uuid timestamp (guards (required route) q)
        (λ p. dispatch p.1 route >>= λ r. pure (success route, r))

passes :
    {S A : Type 0} (b : Bool) (m : M S A) (s s' : S) (a : A)
    → (if b then m else raise (http_text 403 "Forbidden resource")) s ≡ (ok a, s')
    → b ≡ true
passes true m s s' a h = refl
passes false m s s' a h = absurd (ground arith)

module _ (g : Gateway) (U : IsLawful g.users) (C : IsLawfulCache g.cache) (c : Context) where
  -- What the guards let through.
  pub guards_authorized :
      (q : Request) (needed : List PermissionRequirement) (s t : State g)
      (p : String × AuthenticatedUser) (r : PermissionRequirement)
      → guards g c needed q s ≡ (ok p, t)
      → In r needed
      → ((a : AuthenticatedUser)
          → jwt_guard c.jwt c.secret q ≡ ok a
          → as_permissions (Redis.get g.cache (perms_key a.tenant_id a.user_id) s.cache) ≡ none)
      → (a : AuthenticatedUser) × (u : Entity User) × (jwt_guard c.jwt c.secret q ≡ ok a)
        × (U.row s.users a.user_id ≡ some u)
        × (u.own.tenant_id ≡ a.tenant_id)
        × Grants (permissions_of g s u) r
  unfolding guards
  guards_authorized q needed s t p r admitted at out =
      let (p₁, s₁, entered, guarded) = after_answered (admit c q s) let_in p t admitted in
      let (same, resolved, accepted) = admit_ok c q s s₁ p₁ entered in
      let (passed, s₂, checked, rest) =
        after_answered (Rbac.can_activate g needed [] (some p₁.1) s₁) (next p₁) p t guarded in
      let let_through : Rbac.can_activate g needed [] (some p₁.1) s ≡ (ok true, s₂) =
        subst (λ x. Rbac.can_activate g needed [] (some p₁.1) x ≡ (ok true, s₂)) same
          (checked ∙ ap (λ b. (ok b, s₂)) (passes passed (pure p₁) s₂ t p rest)) in
      let (u, row, tenant, granted) =
        can_activate_permitted g U C needed p₁.1 r s s₂ (out p₁.1 accepted) let_through at in
      (p₁.1, u, accepted, row, tenant, granted)
    where
      next : String × AuthenticatedUser → Bool → M (State g) (String × AuthenticatedUser)
      next p passed = if passed then pure p else raise (http_text 403 "Forbidden resource")

      let_in : String × AuthenticatedUser → M (State g) (String × AuthenticatedUser)
      let_in p = Rbac.can_activate g needed [] (some p.1) >>= next p

  -- A request to the controller that is answered carries an accepted token; and where nothing is
  -- cached of the permissions of its user, the user is stored under the tenant of the token and has,
  -- by one of its roles, an active permission for each requirement of the route.
  pub handle_authorized :
      (q : Request) (uuid : String) (timestamp : ℕ) (route : Route) (s s' : State g)
      (answer : ℕ × Reply) (r : PermissionRequirement)
      → handle g c q uuid timestamp route s ≡ (answered answer, s')
      → In r (required route)
      → ((a : AuthenticatedUser)
          → jwt_guard c.jwt c.secret q ≡ ok a
          → as_permissions (Redis.get g.cache (perms_key a.tenant_id a.user_id) s.cache) ≡ none)
      → (a : AuthenticatedUser) × (u : Entity User) × (jwt_guard c.jwt c.secret q ≡ ok a)
        × (U.row s.users a.user_id ≡ some u)
        × (u.own.tenant_id ≡ a.tenant_id)
        × Grants (permissions_of g s u) r
  unfolding handle
  handle_authorized q uuid timestamp route s s' answer r h at out =
      let (p, t, admitted, replied) =
        serve_answered q uuid timestamp (guards g c (required route) q)
          (λ p. dispatch g c p.1 route >>= λ r. pure (success route, r)) s s' answer h in
      guards_authorized q (required route) s t p r admitted at out
