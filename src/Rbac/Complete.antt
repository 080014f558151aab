-- ===== src/Rbac/Complete.antt =====
-- The test of the guard against the roles themselves.
use multi_tenant_saas_gatewa.Common.{
  String, ◌≡◌, refl, subst, inl, inr, Bool, true, ◌&&◌, ◌||◌, List, [], ◌∷◌, ◌==◌, arith, all, any,
  In, Bool-cases,
}
use multi_tenant_saas_gatewa.Database.{Entity}
use multi_tenant_saas_gatewa.Entities.{Permission, PermissionRequirement}
use multi_tenant_saas_gatewa.Redis
use multi_tenant_saas_gatewa.Rbac.{requirement_of, permission_key, collect, has_permission}

-- One of the permissions is active and has this resource and action.
unfoldable pub granted : List (Entity Permission) → PermissionRequirement → Bool
granted ps r =
    any (λ p. p.own.is_active && p.own.resource == r.resource && p.own.action == r.action) ps

-- A permission with the key of the requirement is one for it: keys do not run together.
abbrev pub Separated : List (Entity Permission) → PermissionRequirement → Type 0
Separated ps r =
    (p : Entity Permission)
    → In p ps
    → permission_key (requirement_of p.own) ≡ permission_key r
    → (p.own.resource ≡ r.resource) × (p.own.action ≡ r.action)

key_of :
    (p : Entity Permission) (r : PermissionRequirement)
    → p.own.resource ≡ r.resource
    → p.own.action ≡ r.action
    → permission_key (requirement_of p.own) ≡ permission_key r
unfolding permission_key
key_of p r same_resource same_action = rw (same_resource, same_action) refl

any-collect :
    (ps : List (Entity Permission)) (seen : List String) (r : PermissionRequirement)
    → Separated ps r
    → (any (λ p. p.resource == r.resource && p.action == r.action) (collect seen ps)
        || Redis.contains seen (permission_key r))
      ≡ (granted ps r || Redis.contains seen (permission_key r))
unfolding collect granted
any-collect [] seen r apart = refl
any-collect (p ∷ ps) seen r apart = elim (Bool-cases (p.own.is_active)) [
  | inr dead ↦ rw dead (any-collect ps seen r (λ q at. apart q (inr at)))
  | inl alive ↦ elim (Bool-cases (p.own.resource == r.resource && p.own.action == r.action)) [
    | inl here ↦
        let same = key_of p r (ground (arith, here)) (ground (arith, here)) in
        elim (Bool-cases (Redis.contains seen (permission_key (requirement_of p.own)))) [
          | inl old ↦
              let known : Redis.contains seen (permission_key r) ≡ true =
                subst (λ k. Redis.contains seen k ≡ true) same old in
              rw (alive, old, here) (ground (arith, known))
          | inr new ↦ rw (alive, new, here) (ground arith)
        ]
    | inr there ↦ elim (Bool-cases (Redis.contains seen (permission_key (requirement_of p.own)))) [
      | inl old ↦ rw (alive, old, there) (any-collect ps seen r (λ q at. apart q (inr at)))
      | inr new ↦ elim (Bool-cases (permission_key (requirement_of p.own) == permission_key r)) [
        | inl same ↦
            let (resource, action) = apart p (inl refl) (ground (arith, same)) in
            absurd (ground (arith, there, resource, action))
        | inr differ ↦
            rw (alive, new, there)
              (ground (
                arith,
                differ,
                any-collect ps (permission_key (requirement_of p.own) ∷ seen) r
                    (λ q at. apart q (inr at)),
              ))
      ]
    ]
  ]
]

-- Where no permission has the key of a requirement by chance, the test on the collected permissions
-- passes exactly when each required permission is that of an active one.
pub has_permission-collect :
    (ps : List (Entity Permission)) (required : List PermissionRequirement)
    → ((r : PermissionRequirement) → In r required → Separated ps r)
    → has_permission (collect [] ps) required ≡ all (granted ps) required
unfolding has_permission
has_permission-collect ps [] apart = refl
has_permission-collect ps (r ∷ required) apart = ground (
  arith,
  any-collect ps [] r (apart r (inl refl)),
  has_permission-collect ps required (λ q at. apart q (inr at)),
)
