-- ===== src/Rbac/Grants.antt =====
-- What a user is granted: the permissions that the loops of `getUserPermissions` collect.
use multi_tenant_saas_gatewa.Common.{
  String, ◌≡◌, refl, inl, inr, true, ◌&&◌, List, [], ◌∷◌, ◌==◌, arith, any, In, Bool-cases,
}
use multi_tenant_saas_gatewa.Database.{Entity}
use multi_tenant_saas_gatewa.Entities.{Permission, PermissionRequirement}
use multi_tenant_saas_gatewa.Redis
use multi_tenant_saas_gatewa.Rbac.{requirement_of, permission_key, collect, has_permission}

-- One of the permissions is active and has this resource and action.
pub record Grants (ps : List (Entity Permission)) (r : PermissionRequirement) : Type 0 where
  pub source : Entity Permission
  pub listed : In source ps
  pub active : source.own.is_active ≡ true
  pub same_resource : source.own.resource ≡ r.resource
  pub same_action : source.own.action ≡ r.action

Grants-∷ :
    {p : Entity Permission} {ps : List (Entity Permission)} {r : PermissionRequirement}
    → Grants ps r
    → Grants (p ∷ ps) r
Grants-∷ h = record {
  source = h.source;
  listed = inr h.listed;
  active = h.active;
  same_resource = h.same_resource;
  same_action = h.same_action;
}

any_collected-Grants :
    (ps : List (Entity Permission)) (seen : List String) (r : PermissionRequirement)
    → any (λ p. p.resource == r.resource && p.action == r.action) (collect seen ps) ≡ true
    → Grants ps r
unfolding collect
any_collected-Grants [] seen r h = absurd (ground arith)
any_collected-Grants (p ∷ ps) seen r h = elim (Bool-cases (p.own.is_active)) [
  | inr dead ↦ Grants-∷ (any_collected-Grants ps seen r (rw dead at h))
  | inl alive ↦ elim (Bool-cases (Redis.contains seen (permission_key (requirement_of p.own)))) [
    | inl old ↦ Grants-∷ (any_collected-Grants ps seen r (rw (alive, old) at h))
    | inr new ↦ elim (Bool-cases (p.own.resource == r.resource && p.own.action == r.action)) [
      | inl here ↦ record {
        source = p;
        listed = inl refl;
        active = alive;
        same_resource = ground arith;
        same_action = ground arith;
      }
      | inr there ↦ Grants-∷ (
          any_collected-Grants ps (permission_key (requirement_of p.own) ∷ seen) r
            (rw (alive, new, there) at h))
    ]
  ]
]

pub has_permission-Grants :
    (ps : List (Entity Permission)) (required : List PermissionRequirement)
    (r : PermissionRequirement)
    → has_permission (collect [] ps) required ≡ true
    → In r required
    → Grants ps r
unfolding has_permission
has_permission-Grants ps [] r h at = absurd at
has_permission-Grants ps (x ∷ required) r h (inl eq) =
    rw eq (any_collected-Grants ps [] x (ground arith))
has_permission-Grants ps (x ∷ required) r h (inr at) =
    has_permission-Grants ps required r (ground arith) at
