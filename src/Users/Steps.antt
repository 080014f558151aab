-- ===== src/Users/Steps.antt =====
-- What one call of the user service does to the table of users and to the cached users, as a step
-- relation.
use multi_tenant_saas_gatewa.Common.{
  ℕ, String, ◌≡◌, refl, ◌∙◌, inl, inr, Bool, Option, none, some, List, [], ◌∷◌, ◌==◌, if◌then◌else◌,
  arith, Option-cases, Bool-cases,
}
use multi_tenant_saas_gatewa.Common.Outcome.{ok}
use multi_tenant_saas_gatewa.Database.{Entity, IsLawful}
use multi_tenant_saas_gatewa.Database.Laws.{Result-cases, find_one_cases}
use multi_tenant_saas_gatewa.Entities.{User, UserStatus, Cached, user}
use multi_tenant_saas_gatewa.Redis
use multi_tenant_saas_gatewa.Redis.{IsLawfulCache}
use multi_tenant_saas_gatewa.Redis.Reads.{
  get_user-set_user, get_user-del_list, get_user-invalidate_user,
}
use multi_tenant_saas_gatewa.Gateway.{Gateway, State}
use multi_tenant_saas_gatewa.Users.{
  CreateUserPayload, UpdateUserPayload, format_response, as_user, with_id, with_email, new_user,
  apply_update, create, load_by_id, find_by_id, find_by_email, find_all_by_tenant, update, delete,
}

pub data Call : Type 0 where
  creates : String → CreateUserPayload → String → ℕ → Call
  finds_by_id : String → String → Call
  finds_by_email : String → String → Call
  finds_all : (String → String → Bool) → String → ℕ → ℕ → Option String → Option UserStatus → Call
  updates : String → String → UpdateUserPayload → ℕ → Call
  deletes : String → String → ℕ → ℕ → Call

-- The tenant in whose name a call is made.
abbrev pub caller : Call → String
caller (creates tenant_id payload salt now) = tenant_id
caller (finds_by_id tenant_id user_id) = tenant_id
caller (finds_by_email tenant_id email) = tenant_id
caller (finds_all ilike tenant_id page limit query status) = tenant_id
caller (updates tenant_id user_id payload now) = tenant_id
caller (deletes tenant_id user_id deleted_at now) = tenant_id

-- A saved user keeps id, tenant and email.
pub record SameIdentity (old new : Entity User) : Type 0 where
  pub same_id : new.id ≡ old.id
  pub same_tenant : new.own.tenant_id ≡ old.own.tenant_id
  pub same_email : new.own.email ≡ old.own.email

module _ (g : Gateway) where
  -- The value under the key of a user.
  abbrev pub entry : State g → String → Option Cached
  entry s i = Redis.get g.cache (Redis.user_key i) s.cache

  -- Every entry of a user after a step.
  abbrev pub Entries : State g → (String → Option Cached) → Type 0
  Entries s f = (i : String) → entry s i ≡ f i

module _ (g : Gateway) (U : IsLawful g.users) (C : IsLawfulCache g.cache) (ttl : ℕ) where
  pub data Step (T : String) (s s' : State g) : Type 0 where
    kept : s'.users ≡ s.users → Entries g s' (entry g s) → Step T s s'
    cached :
        (u : Entity User)
        → U.row s.users u.id ≡ some u
        → s'.users ≡ s.users
        → Entries g s' (λ i. if u.id == i then some (user (format_response u)) else entry g s i)
        → Step T s s'
    created :
        (f : User) (e : Entity User)
        → f.tenant_id ≡ T
        → g.users.find_one (with_email T f.email) s.users ≡ none
        → g.users.insert f s.users ≡ ok (e, s'.users)
        → Entries g s' (λ i. if e.id == i then some (user (format_response e)) else entry g s i)
        → Step T s s'
    saved :
        (old new e : Entity User)
        → U.row s.users old.id ≡ some old
        → old.own.tenant_id ≡ T
        → SameIdentity old new
        → g.users.save new s.users ≡ ok (e, s'.users)
        → Entries g s' (λ i. if old.id == i then none else entry g s i)
        → Step T s s'
    forgotten :
        (old : Entity User)
        → s'.users ≡ s.users
        → Entries g s' (λ i. if old.id == i then none else entry g s i)
        → Step T s s'
    removed :
        (old : Entity User)
        → U.row s.users old.id ≡ some old
        → old.own.tenant_id ≡ T
        → g.users.remove old s.users ≡ ok (tt, s'.users)
        → Entries g s' (λ i. if old.id == i then none else entry g s i)
        → Step T s s'

  -- The state after a call; the answer is forgotten.
  unfoldable pub perform : Call → State g → State g
  perform (creates tenant_id payload salt now) s = (create g ttl tenant_id payload salt now s).1
  perform (finds_by_id tenant_id user_id) s = (find_by_id g ttl tenant_id user_id s).1
  perform (finds_by_email tenant_id email) s = (find_by_email g ttl tenant_id email s).1
  perform (finds_all ilike tenant_id page limit query status) s =
      (find_all_by_tenant g ttl ilike tenant_id page limit query status s).1
  perform (updates tenant_id user_id payload now) s =
      (update g ttl tenant_id user_id payload now s).1
  perform (deletes tenant_id user_id deleted_at now) s =
      (delete g ttl tenant_id user_id deleted_at now s).1

  unfoldable pub run : List Call → State g → State g
  run [] s = s
  run (c ∷ cs) s = run cs (perform c s)

  create-Step :
      (T : String) (payload : CreateUserPayload) (salt : String) (now : ℕ) (s : State g)
      → Step T s (create g ttl T payload salt now s).1
  unfolding create
  create-Step T payload salt now s =
      elim (Option-cases (g.tenants.find_one (λ t. t.id == T) s.tenants)) [
        | inl nobody ↦ rw nobody (kept refl (λ i. refl))
        | inr (tenant, there) ↦
            rw there (elim (Option-cases (g.users.find_one (with_email T payload.email) s.users)) [
              | inr (u, taken) ↦ rw taken (kept refl (λ i. refl))
              | inl free ↦ rw free (elim (Result-cases (g.users.insert f s.users)) [
                | inl (x, failed) ↦ rw failed (kept refl (λ i. refl))
                | inr ((e, t), done) ↦ rw done (
                    created f e refl free done
                      (λ i. get_user-del_list C _ T i ∙ get_user-set_user C s.cache e.id i _ _))
              ])
            ])
      ]
    where
      f : User
      f = new_user T payload (g.bcrypt.hash salt 10 payload.password)

  load-Step : (T user_id : String) (s : State g) → Step T s (load_by_id g ttl T user_id s).1
  unfolding load_by_id
  load-Step T user_id s =
      elim (find_one_cases U (with_id T user_id) user_id (with_id T user_id) s.users) [
        | inl missing ↦ rw missing (kept refl (λ i. refl))
        | inr (u, found, row, passed) ↦ rw found (
            cached u row refl (λ i.
              ground (
                arith,
                get_user-set_user C s.cache user_id i (user (format_response u)) (some ttl),
              )))
      ]

  find-Step : (T user_id : String) (s : State g) → Step T s (find_by_id g ttl T user_id s).1
  unfolding find_by_id
  find-Step T user_id s = elim (Option-cases (as_user (entry g s user_id))) [
    | inl absent ↦ rw (absent, find_by_id) (load-Step T user_id s)
    | inr (d, hit) ↦
        rw (hit, find_by_id)
          (elim (Bool-cases (d.tenant_id == T)) [
            | inl mine ↦ rw mine (kept refl (λ i. refl))
            | inr other ↦ rw other (load-Step T user_id s)
          ])
  ]

  update-Step :
      (T user_id : String) (payload : UpdateUserPayload) (now : ℕ) (s : State g)
      → Step T s (update g ttl T user_id payload now s).1
  unfolding update
  update-Step T user_id payload now s =
      elim (find_one_cases U (with_id T user_id) user_id (with_id T user_id) s.users) [
        | inl missing ↦ rw missing (kept refl (λ i. refl))
        | inr (u, found, row, passed) ↦
            rw found (elim (Result-cases (g.users.save (new u) s.users)) [
              | inl (x, failed) ↦ rw failed (kept refl (λ i. refl))
              | inr ((e, t), done) ↦ rw done (
                  saved u (new u) e row (ground arith)
                    (record { same_id = refl; same_tenant = refl; same_email = refl }) done
                    (λ i. ground (
                      arith,
                      (U.save_ok (new u) e u s.users t row done).0.same_id,
                      get_user-invalidate_user C s.cache e.id T i,
                    )))
            ])
      ]
    where
      new : Entity User → Entity User
      new u = record u { own = apply_update payload u.own }

  delete-Step :
      (T user_id : String) (deleted_at now : ℕ) (s : State g)
      → Step T s (delete g ttl T user_id deleted_at now s).1
  unfolding delete
  delete-Step T user_id deleted_at now s =
      elim (find_one_cases U (with_id T user_id) user_id (with_id T user_id) s.users) [
        | inl missing ↦ rw missing (kept refl (λ i. refl))
        | inr (u, found, row, passed) ↦ rw found (elim (Result-cases (g.users.remove u s.users)) [
          | inl (x, failed) ↦ rw failed (
              forgotten u refl
                (λ i. ground (arith, get_user-invalidate_user C s.cache user_id u.own.tenant_id i)))
          | inr ((_, t), done) ↦ rw done (
              removed u row (ground arith) done
                (λ i. ground (arith, get_user-invalidate_user C s.cache user_id u.own.tenant_id i)))
        ])
      ]

  -- Every call of the service is a step.
  pub perform-Step : (c : Call) (s : State g) → Step (caller c) s (perform c s)
  unfolding perform find_by_email find_all_by_tenant
  perform-Step (creates T payload salt now) s = create-Step T payload salt now s
  perform-Step (finds_by_id T user_id) s = find-Step T user_id s
  perform-Step (finds_by_email T email) s =
      elim (Option-cases (g.users.find_one (with_email T email) s.users)) [
        | inl missing ↦ rw (missing, perform) (kept refl (λ i. refl))
        | inr (u, found) ↦ rw (found, perform) (kept refl (λ i. refl))
      ]
  perform-Step (finds_all ilike T page limit query status) s = kept refl (λ i. refl)
  perform-Step (updates T user_id payload now) s = update-Step T user_id payload now s
  perform-Step (deletes T user_id deleted_at now) s = delete-Step T user_id deleted_at now s
