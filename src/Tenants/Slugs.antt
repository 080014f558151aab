-- ===== src/Tenants/Slugs.antt =====
-- Slugs stay unique.
use multi_tenant_saas_gatewa.Common.{
  ℕ, String, ◌≡◌, ◌≢◌, refl, ◌⊎◌, inl, inr, Bool, Option, none, some, List, [], ◌∷◌, ◌==◌, arith,
  Option-cases, Bool-cases, get_or,
}
use multi_tenant_saas_gatewa.Common.Outcome.{ok, throw, Exception}
use multi_tenant_saas_gatewa.Database.{Entity, IsLawful}
use multi_tenant_saas_gatewa.Database.Laws.{
  Result-cases, insert_cases, save_cases, remove_cases, find_one_cases,
}
use multi_tenant_saas_gatewa.Entities.{Tenant, TenantStatus, Permission, Role}
use multi_tenant_saas_gatewa.Redis
use multi_tenant_saas_gatewa.Gateway.{Gateway, State}
use multi_tenant_saas_gatewa.Tenants.{
  CreateTenantPayload, UpdateTenantPayload, DefaultRole, default_roles, default_role, with_id,
  with_slug, as_tenant, new_tenant, assign, create_roles, initialize_tenant, create, find_by_id,
  load_by_id, find_by_slug, find_all, check_slug, duplicate_slug, update, delete,
}

pub data Call : Type 0 where
  creates : CreateTenantPayload → ℕ → Call
  finds_by_id : String → Call
  finds_by_slug : String → Call
  finds_all : (String → String → Bool) → ℕ → ℕ → Option String → Option TenantStatus → Call
  updates : String → UpdateTenantPayload → ℕ → Call
  deletes : String → ℕ → ℕ → Call

module _ (g : Gateway) (T : IsLawful g.tenants) where
  -- No two tenants have the same slug, the empty one aside.
  abbrev pub UniqueSlugs : State g → Type 0
  UniqueSlugs s =
      (i j : String) (u v : Entity Tenant)
      → T.row s.tenants i ≡ some u
      → T.row s.tenants j ≡ some v
      → u.own.slug ≢ ""
      → u.own.slug ≡ v.own.slug
      → i ≡ j

  -- What a call does to the table of tenants.
  pub data Step (s s' : State g) : Type 0 where
    kept : s'.tenants ≡ s.tenants → Step s s'
    created :
        (f : Tenant) (e : Entity Tenant)
        → g.tenants.find_one (with_slug f.slug) s.tenants ≡ none
        → g.tenants.insert f s.tenants ≡ ok (e, s'.tenants)
        → Step s s'
    saved :
        (old new e : Entity Tenant)
        → T.row s.tenants old.id ≡ some old
        → new.id ≡ old.id
        → (new.own.slug ≡ "")
          ⊎ (new.own.slug ≡ old.own.slug)
          ⊎ (g.tenants.find_one (with_slug new.own.slug) s.tenants ≡ none)
        → g.tenants.save new s.tenants ≡ ok (e, s'.tenants)
        → Step s s'
    removed :
        (old : Entity Tenant)
        → T.row s.tenants old.id ≡ some old
        → g.tenants.remove old s.tenants ≡ ok (tt, s'.tenants)
        → Step s s'

  -- The state after a call; the answer is forgotten.
  unfoldable pub perform : Call → State g → State g
  perform (creates payload now) s = (create g payload now s).1
  perform (finds_by_id id) s = (find_by_id g id s).1
  perform (finds_by_slug slug) s = (find_by_slug g slug s).1
  perform (finds_all ilike page limit query status) s =
      (find_all g ilike page limit query status s).1
  perform (updates id payload now) s = (update g id payload now s).1
  perform (deletes id deleted_at now) s = (delete g id deleted_at now s).1

  unfoldable pub run : List Call → State g → State g
  run [] s = s
  run (c ∷ cs) s = run cs (perform c s)

  create_roles_tenants :
      (tenant_id : String) (all_permissions : List (Entity Permission)) (ds : List DefaultRole)
      (s : State g)
      → (create_roles g tenant_id all_permissions ds s).1.tenants ≡ s.tenants
  unfolding create_roles
  create_roles_tenants tenant_id all_permissions [] s = refl
  create_roles_tenants tenant_id all_permissions (d ∷ ds) s =
      elim (Result-cases (g.roles.insert (default_role tenant_id all_permissions d) s.roles)) [
        | inl (x, failed) ↦ rw failed refl
        | inr ((e, t), done) ↦
            rw done (create_roles_tenants tenant_id all_permissions ds (record s { roles = t }))
      ]

  pub initialize_tenants :
      (tenant_id : String) (s : State g) → (initialize_tenant g tenant_id s).1.tenants ≡ s.tenants
  unfolding initialize_tenant
  initialize_tenants tenant_id s =
      go (g.roles.find (λ r. r.own.tenant_id == tenant_id) s.roles) refl
    where
      go :
          (rs : List (Entity Role))
          → g.roles.find (λ r. r.own.tenant_id == tenant_id) s.roles ≡ rs
          → (initialize_tenant g tenant_id s).1.tenants ≡ s.tenants
      go [] eq = rw (eq, initialize_tenant) (create_roles_tenants tenant_id _ default_roles s)
      go (r ∷ rs) eq = rw (eq, initialize_tenant) refl

  create-Step :
      (payload : CreateTenantPayload) (now : ℕ) (s : State g) → Step s (create g payload now s).1
  unfolding create
  create-Step payload now s =
      elim (Option-cases (g.tenants.find_one (with_slug payload.slug) s.tenants)) [
        | inr (t, taken) ↦ rw taken (kept refl)
        | inl free ↦ elim (Result-cases (g.tenants.insert (new_tenant payload) s.tenants)) [
          | inl (x, failed) ↦ rw (free, failed) (kept refl)
          | inr ((e, t), done) ↦
              created (new_tenant payload) e free
                (ground (arith, done, free, initialize_tenants e.id))
        ]
      ]

  -- What the test of a new slug lets through, and that it changes nothing.
  check_slug_cases :
      (slug : Option String) (t : Entity Tenant) (s : State g)
      → ((x : Exception) × (check_slug g slug t s ≡ (throw x, s)))
        ⊎ ((check_slug g slug t s ≡ (ok tt, s))
            × ((get_or slug t.own.slug ≡ "")
                ⊎ (get_or slug t.own.slug ≡ t.own.slug)
                ⊎ (g.tenants.find_one (with_slug (get_or slug t.own.slug)) s.tenants ≡ none)))
  unfolding check_slug
  check_slug_cases none t s = inr (refl, inr (inl refl))
  check_slug_cases (some new) t s = elim (Bool-cases (new == "")) [
    | inl empty ↦ inr (rw (empty, check_slug) refl, inl (ground arith))
    | inr full ↦ elim (Bool-cases (new == t.own.slug)) [
      | inl same ↦ inr (rw (full, same, check_slug) refl, inr (inl (ground arith)))
      | inr other ↦ elim (Option-cases (g.tenants.find_one (with_slug new) s.tenants)) [
        | inl free ↦ inr (rw (full, other, free, check_slug) refl, inr (inr free))
        | inr (u, taken) ↦ inl (duplicate_slug new, rw (full, other, taken, check_slug) refl)
      ]
    ]
  ]

  update-Step :
      (id : String) (payload : UpdateTenantPayload) (now : ℕ) (s : State g)
      → Step s (update g id payload now s).1
  unfolding update
  update-Step id payload now s = elim (find_one_cases T (with_id id) id (with_id id) s.tenants) [
    | inl missing ↦ rw missing (kept refl)
    | inr (t, found, row, _) ↦ elim (check_slug_cases payload.slug t s) [
      | inl (x, refused) ↦ kept (ground (arith, found, refused))
      | inr (passed, free) ↦
          elim (Result-cases (g.tenants.save (record t { own = assign payload t.own }) s.tenants)) [
            | inl (x, failed) ↦ kept (ground (arith, found, passed, failed))
            | inr ((e, t'), done) ↦
                saved t (record t { own = assign payload t.own }) e row refl free
                  (ground (arith, found, passed, done))
          ]
    ]
  ]

  delete-Step :
      (id : String) (deleted_at now : ℕ) (s : State g) → Step s (delete g id deleted_at now s).1
  unfolding delete
  delete-Step id deleted_at now s = elim (find_one_cases T (with_id id) id (with_id id) s.tenants) [
    | inl missing ↦ rw missing (kept refl)
    | inr (t, found, row, _) ↦ elim (Result-cases (g.tenants.remove t s.tenants)) [
      | inl (x, failed) ↦ rw (found, failed) (kept refl)
      | inr ((_, t'), done) ↦ removed t row (ground (arith, found, done))
    ]
  ]

  load_by_id_tenants : (id : String) (s : State g) → (load_by_id g id s).1.tenants ≡ s.tenants
  unfolding load_by_id
  load_by_id_tenants id s = elim (Option-cases (g.tenants.find_one (with_id id) s.tenants)) [
    | inl missing ↦ rw missing refl
    | inr (t, found) ↦ rw found refl
  ]

  find_by_id_tenants : (id : String) (s : State g) → (find_by_id g id s).1.tenants ≡ s.tenants
  unfolding find_by_id
  find_by_id_tenants id s =
      elim (Option-cases (as_tenant (Redis.get g.cache (Redis.tenant_key id) s.cache))) [
        | inl absent ↦ rw (absent, find_by_id) (load_by_id_tenants id s)
        | inr (d, hit) ↦ rw (hit, find_by_id) refl
      ]

  find_by_slug_tenants :
      (slug : String) (s : State g) → (find_by_slug g slug s).1.tenants ≡ s.tenants
  unfolding find_by_slug
  find_by_slug_tenants slug s =
      elim (Option-cases (g.tenants.find_one (with_slug slug) s.tenants)) [
        | inl missing ↦ rw missing refl
        | inr (t, found) ↦ rw found refl
      ]

  -- Every call of the service is a step.
  perform-Step : (c : Call) (s : State g) → Step s (perform c s)
  unfolding perform find_by_id find_by_slug find_all
  perform-Step (creates payload now) s = create-Step payload now s
  perform-Step (finds_by_id id) s = kept (find_by_id_tenants id s)
  perform-Step (finds_by_slug slug) s = kept (find_by_slug_tenants slug s)
  perform-Step (finds_all ilike page limit query status) s = kept refl
  perform-Step (updates id payload now) s = update-Step id payload now s
  perform-Step (deletes id deleted_at now) s = delete-Step id deleted_at now s

  Step-UniqueSlugs : {s s' : State g} → Step s s' → UniqueSlugs s → UniqueSlugs s'
  Step-UniqueSlugs (kept same) h i j u v p q full slugs =
      h i j u v (rw same at p) (rw same at q) full slugs
  Step-UniqueSlugs {s} (created f e free done) h i j u v p q full slugs = ground (
    arith,
    h i j u v,
    insert_cases T (with_id i) i f s.tenants,
    insert_cases T (with_id i) j f s.tenants,
    T.find_one_none (with_slug f.slug) s.tenants i u free,
    T.find_one_none (with_slug f.slug) s.tenants j v free,
  )
  Step-UniqueSlugs {s} (saved old new e row same free done) h i j u v p q full slugs =
      let stored : T.row s.tenants new.id ≡ some old = rw same row in
      elim free [
        | inl empty ↦ ground (
          arith,
          empty,
          stored,
          same,
          row,
          h i j u v,
          save_cases T (with_id i) i new old s.tenants,
          save_cases T (with_id i) j new old s.tenants,
        )
        | inr (inl kept_slug) ↦ ground (
          arith,
          kept_slug,
          stored,
          same,
          row,
          h i j u v,
          h old.id j old v,
          h i old.id u old,
          save_cases T (with_id i) i new old s.tenants,
          save_cases T (with_id i) j new old s.tenants,
        )
        | inr (inr unused) ↦ ground (
          arith,
          unused,
          stored,
          same,
          row,
          h i j u v,
          T.find_one_none (with_slug new.own.slug) s.tenants i u unused,
          T.find_one_none (with_slug new.own.slug) s.tenants j v unused,
          save_cases T (with_id i) i new old s.tenants,
          save_cases T (with_id i) j new old s.tenants,
        )
      ]
  Step-UniqueSlugs {s} (removed old row done) h i j u v p q full slugs = ground (
    arith,
    h i j u v,
    row,
    remove_cases T (with_id i) i old old s.tenants,
    remove_cases T (with_id i) j old old s.tenants,
  )

  -- After any history of calls, no two tenants have the same slug, the empty one aside, if that was so
  -- before.
  pub run-UniqueSlugs : (cs : List Call) (s : State g) → UniqueSlugs s → UniqueSlugs (run cs s)
  unfolding run
  run-UniqueSlugs [] s h = h
  run-UniqueSlugs (c ∷ cs) s h =
      run-UniqueSlugs cs (perform c s) (Step-UniqueSlugs (perform-Step c s) h)
