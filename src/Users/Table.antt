-- ===== src/Users/Table.antt =====
-- What every history of calls keeps in the table of users: an email is used once in a tenant, and a
-- tenant touches its own users only.
use multi_tenant_saas_gatewa.Common.{ℕ, String, ◌≡◌, ◌≢◌, ◌↔◌, some, List, [], ◌∷◌, arith}
use multi_tenant_saas_gatewa.Database.{Entity, IsLawful}
use multi_tenant_saas_gatewa.Database.Laws.{insert_cases, save_cases, remove_cases}
use multi_tenant_saas_gatewa.Entities.{User}
use multi_tenant_saas_gatewa.Redis.{IsLawfulCache}
use multi_tenant_saas_gatewa.Gateway.{Gateway, State}
use multi_tenant_saas_gatewa.Users.{with_id, with_email}
use multi_tenant_saas_gatewa.Users.Emails.{UniqueEmails}
use multi_tenant_saas_gatewa.Users.Steps.{
  Call, Step, kept, cached, created, saved, forgotten, removed, caller, perform, perform-Step, run,
}

module _ (g : Gateway) (U : IsLawful g.users) (C : IsLawfulCache g.cache) (ttl : ℕ) where
  Step-UniqueEmails :
      {T : String} {s s' : State g}
      → Step g U C ttl T s s'
      → UniqueEmails g U s.users
      → UniqueEmails g U s'.users
  Step-UniqueEmails (kept same now) h i j u v p q tenants emails =
      h i j u v (rw same at p) (rw same at q) tenants emails
  Step-UniqueEmails (cached x row same now) h i j u v p q tenants emails =
      h i j u v (rw same at p) (rw same at q) tenants emails
  Step-UniqueEmails {T} {s} (created f e mine free done now) h i j u v p q tenants emails = ground (
    arith,
    h i j u v,
    insert_cases U (with_id i i) i f s.users,
    insert_cases U (with_id i i) j f s.users,
    U.find_one_none (with_email T f.email) s.users i u free,
    U.find_one_none (with_email T f.email) s.users j v free,
  )
  Step-UniqueEmails {T} {s} (saved old new e row mine a done now) h i j u v p q tenants emails =
      ground (
        arith,
        a.same_id,
        a.same_tenant,
        a.same_email,
        row,
        h i j u v,
        h old.id j old v,
        h i old.id u old,
        save_cases U (with_id i i) i new old s.users,
        save_cases U (with_id i i) j new old s.users,
      )
  Step-UniqueEmails (forgotten old same now) h i j u v p q tenants emails =
      h i j u v (rw same at p) (rw same at q) tenants emails
  Step-UniqueEmails {T} {s} (removed old row mine done now) h i j u v p q tenants emails = ground (
    arith,
    h i j u v,
    remove_cases U (with_id i i) i old old s.users,
    remove_cases U (with_id i i) j old old s.users,
  )

  -- After any history of calls, no two users of a tenant have the same email, if that was so before.
  pub run-UniqueEmails :
      (cs : List Call) (s : State g)
      → UniqueEmails g U s.users
      → UniqueEmails g U (run g U C ttl cs s).users
  unfolding run
  run-UniqueEmails [] s h = h
  run-UniqueEmails (c ∷ cs) s h =
      run-UniqueEmails cs (perform g U C ttl c s) (Step-UniqueEmails (perform-Step g U C ttl c s) h)

  Step-isolated :
      {T : String} {s s' : State g} (i : String) (u : Entity User)
      → Step g U C ttl T s s'
      → u.own.tenant_id ≢ T
      → (U.row s.users i ≡ some u) ↔ (U.row s'.users i ≡ some u)
  Step-isolated i u (kept same now) other = (λ h. rw same h, λ h. rw same at h)
  Step-isolated i u (cached x row same now) other = (λ h. rw same h, λ h. rw same at h)
  Step-isolated {T} {s} i u (created f e mine free done now) other =
      ground (arith, insert_cases U (with_id i i) i f s.users)
  Step-isolated {T} {s} i u (saved old new e row mine a done now) other = ground (
    arith,
    a.same_id,
    a.same_tenant,
    row,
    U.row_id s.users i u,
    save_cases U (with_id i i) i new old s.users,
  )
  Step-isolated i u (forgotten old same now) other = (λ h. rw same h, λ h. rw same at h)
  Step-isolated {T} {s} i u (removed old row mine done now) other =
      ground (arith, row, remove_cases U (with_id i i) i old old s.users)

  -- Whatever a tenant calls, the users of all other tenants are the same afterwards.
  pub perform_isolated_users :
      (c : Call) (s : State g) (i : String) (u : Entity User)
      → u.own.tenant_id ≢ caller c
      → (U.row s.users i ≡ some u) ↔ (U.row (perform g U C ttl c s).users i ≡ some u)
  perform_isolated_users c s i u other = Step-isolated i u (perform-Step g U C ttl c s) other
