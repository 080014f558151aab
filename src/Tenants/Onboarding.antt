-- ===== src/Tenants/Onboarding.antt =====
-- The default roles of a tenant, and a tenant whose event could not be published.
use multi_tenant_saas_gatewa.Common.{
  ℕ, String, ◌≡◌, refl, ap, ◌⊎◌, inl, inr, Bool, true, none, some, List, [], ◌∷◌, ◌==◌, arith,
}
use multi_tenant_saas_gatewa.Common.Outcome.{ok, throw, Exception}
use multi_tenant_saas_gatewa.Database.{Entity, IsLawful}
use multi_tenant_saas_gatewa.Database.Laws.{Result-cases, insert_cases}
use multi_tenant_saas_gatewa.Entities.{Tenant, Role, Permission}
use multi_tenant_saas_gatewa.Events.{Envelope, publish_tenant_created, publish_to_tenant}
use multi_tenant_saas_gatewa.Gateway.{Gateway, State}
use multi_tenant_saas_gatewa.Tenants.{
  CreateTenantPayload, DefaultRole, default_roles, default_role, create_roles, initialize_tenant,
  create, with_slug, new_tenant,
}
use multi_tenant_saas_gatewa.Tenants.Slugs.{initialize_tenants}

List-cases : {A : Type 0} (xs : List A) → (xs ≡ []) ⊎ ((y : A) × (ys : List A) × (xs ≡ y ∷ ys))
List-cases [] = inl refl
List-cases (y ∷ ys) = inr (y, ys, refl)

abbrev of_tenant : String → Entity Role → Bool
of_tenant tenant_id r = r.own.tenant_id == tenant_id

module _ (g : Gateway) (T : IsLawful g.tenants) (R : IsLawful g.roles) where
  -- After one of the inserts the tenant has a role, and keeps it.
  create_roles-some :
      (tenant_id : String) (all_permissions : List (Entity Permission)) (ds : List DefaultRole)
      (d : DefaultRole) (s s' : State g)
      → create_roles g tenant_id all_permissions (d ∷ ds) s ≡ (ok tt, s')
      → (i : String) × (r : Entity Role) × (R.row s'.roles i ≡ some r)
        × (r.own.tenant_id ≡ tenant_id)
  unfolding create_roles
  create_roles-some tenant_id all_permissions [] d s s' h =
      elim (insert_cases R (λ r. true) "" (default_role tenant_id all_permissions d) s.roles) [
        | inl (x, failed) ↦ absurd (ground arith)
        | inr (e, t, done, fresh, own, _, _) ↦ (
          e.id,
          e,
          ground (
            arith,
            done,
            insert_cases R (λ r. true) e.id (default_role tenant_id all_permissions d) s.roles,
          ),
          ground (arith, own),
        )
      ]
  create_roles-some tenant_id all_permissions (d' ∷ ds) d s s' h =
      elim (Result-cases (g.roles.insert (default_role tenant_id all_permissions d) s.roles)) [
        | inl (x, failed) ↦ absurd (ground arith)
        | inr ((e, t), done) ↦
            create_roles-some tenant_id all_permissions ds d' (record s { roles = t }) s'
              (ground (arith, done))
      ]

  -- An onboarding that ran to its end is not repeated: run again for the same tenant, it succeeds and
  -- changes nothing.
  pub initialize_once :
      (tenant_id : String) (s s' : State g)
      → initialize_tenant g tenant_id s ≡ (ok tt, s')
      → initialize_tenant g tenant_id s' ≡ (ok tt, s')
  unfolding initialize_tenant default_roles
  initialize_once tenant_id s s' h =
      elim (List-cases (g.roles.find (of_tenant tenant_id) s.roles)) [
        | inr (r, rs, some_roles) ↦
            let same : s ≡ s' = ap (λ p. p.1) (rw (some_roles, initialize_tenant) at h) in
            rw (← same) (rw (some_roles, initialize_tenant) refl)
        | inl none_yet ↦
            let (i, r, row, mine) =
              create_roles-some tenant_id (g.permissions.find (λ p. p.own.is_active) s.permissions)
                later first s s' (rw (none_yet, initialize_tenant) at h) in
            elim (List-cases (g.roles.find (of_tenant tenant_id) s'.roles)) [
              | inr (q, qs, some_roles) ↦ rw (some_roles, initialize_tenant) refl
              | inl still ↦ absurd (
                  rw still at
                    (R.find_complete (of_tenant tenant_id) s'.roles i r row (ground (arith, mine))))
            ]
      ]
    where
      first : DefaultRole
      first = record {
        name = "admin";
        description = "Full access to all resources";
        permissions = "*:*" ∷ [];
      }

      later : List DefaultRole
      later =
          record {
            name = "member";
            description = "Standard member access";
            permissions = "users:read" ∷ "api-keys:read" ∷ "api-keys:create" ∷ [];
          }
          ∷ record {
            name = "viewer";
            description = "Read-only access";
            permissions = "users:read" ∷ [];
          }
          ∷ []

  -- A tenant whose slug is free and whose row could be inserted stays in the table when its event cannot
  -- be published, although the call of `create` throws.
  pub create_after_commit :
      (payload : CreateTenantPayload) (now : ℕ) (e : Entity Tenant) (t : g.tenants.Table)
      (x : Exception) (s : State g)
      → g.tenants.find_one (with_slug payload.slug) s.tenants ≡ none
      → g.tenants.insert (new_tenant payload) s.tenants ≡ ok (e, t)
      → ((topic : String) (m : Envelope) (b : g.kafka.Bus) → g.kafka.emit topic m b ≡ throw x)
      → ((create g payload now s).0 ≡ throw x)
        × (T.row (create g payload now s).1.tenants e.id ≡ some e)
  unfolding create publish_tenant_created publish_to_tenant
  create_after_commit payload now e t x s free done down = (
    simp (free, done, down) refl,
    simp (free, done, down, initialize_tenants g T e.id)
        (ground (
          arith,
          done,
          insert_cases T (with_slug payload.slug) e.id (new_tenant payload) s.tenants,
        )),
  )
