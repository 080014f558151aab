-- ===== src/Tenants/DefaultRoles.antt =====
-- src/modules/tenants/services/onboarding.service.ts
use multi_tenant_saas_gatewa.Common.{
  String, Bool, true, ◌||◌, some, List, [], ◌∷◌, ◌==◌, concat, map, any, filter,
}
use multi_tenant_saas_gatewa.Common.Outcome.{ok, M, after}
use multi_tenant_saas_gatewa.Database.{Entity, Where}
use multi_tenant_saas_gatewa.Entities.{Permission, Role}
use multi_tenant_saas_gatewa.Gateway.{Gateway, State, insert_role}

pub record DefaultRole : Type 0 where
  pub name : String
  pub description : String
  pub permissions : List String

unfoldable pub default_roles : List DefaultRole
default_roles =
    record {
      name = "admin";
      description = "Full access to all resources";
      permissions = "*:*" ∷ [];
    }
    ∷ record {
      name = "member";
      description = "Standard member access";
      permissions = "users:read" ∷ "api-keys:read" ∷ "api-keys:create" ∷ [];
    }
    ∷ record { name = "viewer"; description = "Read-only access"; permissions = "users:read" ∷ [] }
    ∷ []

abbrev pub includes : List String → String → Bool
includes xs x = any (λ y. y == x) xs

-- The permissions of a default role.
abbrev pub matches : DefaultRole → Where Permission
matches d p =
    includes d.permissions (concat (p.own.resource ∷ ":" ∷ p.own.action ∷ []))
    || includes d.permissions "*:*"

-- The role that the loop saves for a default role.
abbrev pub default_role : String → List (Entity Permission) → DefaultRole → Role
default_role tenant_id all_permissions d = record {
  tenant_id = tenant_id;
  name = d.name;
  description = some d.description;
  is_system = true;
  permissions = map (λ p. p.id) (filter (matches d) all_permissions);
}

module _ (g : Gateway) where
  -- The loop over `DEFAULT_ROLES`.
  unfoldable pub create_roles :
      String → List (Entity Permission) → List DefaultRole → M (State g) (Unit {0})
  create_roles tenant_id all_permissions [] s = (ok tt, s)
  create_roles tenant_id all_permissions (d ∷ ds) s =
      after (insert_role g (default_role tenant_id all_permissions d) s)
        (λ _. create_roles tenant_id all_permissions ds)

  -- `OnboardingService.initializeTenant`.
  unfoldable pub initialize_tenant : String → M (State g) (Unit {0})
  unfolding create_roles default_roles
  initialize_tenant tenant_id s = elim (g.roles.find (λ r. r.own.tenant_id == tenant_id) s.roles) [
    | [] ↦
        create_roles tenant_id (g.permissions.find (λ p. p.own.is_active) s.permissions)
          default_roles s
    | ◌∷◌ r rs ↦ (ok tt, s)
  ]
