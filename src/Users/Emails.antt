-- ===== src/Users/Emails.antt =====
-- Emails within a tenant.
use multi_tenant_saas_gatewa.Common.{String, ◌≡◌, ap, ◌∙◌, inl, inr, some, arith}
use multi_tenant_saas_gatewa.Database.{Entity, IsLawful}
use multi_tenant_saas_gatewa.Database.Laws.{find_one_cases}
use multi_tenant_saas_gatewa.Entities.{User}
use multi_tenant_saas_gatewa.Gateway.{Gateway}
use multi_tenant_saas_gatewa.Users.{with_email}

module _ (g : Gateway) (U : IsLawful g.users) where
  -- `@Unique(['tenantId', 'email'])`: no two users of a tenant have the same email.
  abbrev pub UniqueEmails : g.users.Table → Type 0
  UniqueEmails t =
      (i j : String) (u v : Entity User)
      → U.row t i ≡ some u
      → U.row t j ≡ some v
      → u.own.tenant_id ≡ v.own.tenant_id
      → u.own.email ≡ v.own.email
      → i ≡ j

  pub find_one_of_email :
      (t : g.users.Table) (u : Entity User)
      → UniqueEmails t
      → U.row t u.id ≡ some u
      → g.users.find_one (with_email u.own.tenant_id u.own.email) t ≡ some u
  find_one_of_email t u unique row =
      elim (find_one_cases U (with_email u.own.tenant_id u.own.email) u.id
        (with_email u.own.tenant_id u.own.email) t) [
          | inl missing ↦
              absurd
                (ground (arith, U.find_one_none (with_email u.own.tenant_id u.own.email) t u.id u))
          | inr (k, found, stored, passed) ↦
              let same : k ≡ u = ground (arith, unique k.id u.id k u) in found ∙ ap some same
        ]
