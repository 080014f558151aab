-- ===== src/Users/Cache.antt =====
-- The user cache is transparent: while only this service writes users, `findById` answers as the
-- table would, and so every answer belongs to the tenant that asks.
use multi_tenant_saas_gatewa.Common.{
  ℕ, String, ◌≡◌, ◌≢◌, ◌⊎◌, inl, inr, none, some, List, [], ◌∷◌, ◌==◌, if◌then◌else◌, arith,
  Option-cases,
}
use multi_tenant_saas_gatewa.Common.Outcome.{Result, ok, throw}
use multi_tenant_saas_gatewa.Database.{Entity, IsLawful}
use multi_tenant_saas_gatewa.Database.Laws.{insert_cases, save_cases, remove_cases, find_one_cases}
use multi_tenant_saas_gatewa.Entities.{User, UserResponseDto, user}
use multi_tenant_saas_gatewa.Redis
use multi_tenant_saas_gatewa.Redis.{IsLawfulCache}
use multi_tenant_saas_gatewa.Gateway.{Gateway, State}
use multi_tenant_saas_gatewa.Users.Steps.{
  Call, Step, kept, cached, created, saved, forgotten, removed, perform, perform-Step, run, entry,
}
use multi_tenant_saas_gatewa.Users.{
  format_response, as_user, with_id, user_not_found, load_by_id, find_by_id,
}

module _ (g : Gateway) (U : IsLawful g.users) (C : IsLawfulCache g.cache) (ttl : ℕ) where
  -- A cached user is what the table holds under the same id.
  abbrev pub Coherent : State g → Type 0
  Coherent s =
      (i : String) (d : UserResponseDto)
      → as_user (Redis.get g.cache (Redis.user_key i) s.cache) ≡ some d
      → (u : Entity User) × (U.row s.users i ≡ some u) × (d ≡ format_response u)

  -- The answer of `findById` by the table alone.
  pub find_spec : String → String → State g → Result UserResponseDto
  find_spec tenant_id user_id s = elim (U.row s.users user_id) [
    | none ↦ throw (user_not_found user_id)
    | some u ↦
        if u.own.tenant_id == tenant_id
        then ok (format_response u)
        else throw (user_not_found user_id)
  ]

  load-spec :
      (tenant_id user_id : String) (s : State g)
      → (load_by_id g ttl tenant_id user_id s).0 ≡ find_spec tenant_id user_id s
  unfolding load_by_id find_spec
  load-spec tenant_id user_id s = elim (Option-cases (U.row s.users user_id)) [
    | inl gone ↦ ground (
      arith,
      find_one_cases U (with_id tenant_id user_id) user_id (with_id tenant_id user_id) s.users,
    )
    | inr (u, row) ↦ ground (
      arith,
      U.row_id s.users user_id u row,
      U.find_one_none (with_id tenant_id user_id) s.users user_id u,
      find_one_cases U (with_id tenant_id user_id) user_id (with_id tenant_id user_id) s.users,
    )
  ]

  pub find_by_id-spec :
      (tenant_id user_id : String) (s : State g)
      → Coherent s
      → (find_by_id g ttl tenant_id user_id s).0 ≡ find_spec tenant_id user_id s
  unfolding find_by_id find_spec format_response
  find_by_id-spec tenant_id user_id s h =
      elim (Option-cases (as_user (Redis.get g.cache (Redis.user_key user_id) s.cache))) [
        | inl absent ↦ rw (absent, find_by_id) (load-spec tenant_id user_id s)
        | inr (d, hit) ↦ ground (arith, h user_id d, load-spec tenant_id user_id s)
      ]

  -- An entry that a write of the user `x` left behind is the new one, or an old one of another user.
  entry_cases :
      (x : Entity User) (s : State g) (i : String) (d : UserResponseDto)
      → as_user (if x.id == i then some (user (format_response x)) else entry g s i) ≡ some d
      → ((x.id ≡ i) × (d ≡ format_response x)) ⊎ ((x.id ≢ i) × (as_user (entry g s i) ≡ some d))
  entry_cases x s i d hit = ground arith

  entry_of_other :
      (x : Entity User) (s : State g) (i : String) (d : UserResponseDto)
      → as_user (if x.id == i then none else entry g s i) ≡ some d
      → (x.id ≢ i) × (as_user (entry g s i) ≡ some d)
  entry_of_other x s i d hit = ground arith

  Step-Coherent : {T : String} {s s' : State g} → Step g U C ttl T s s' → Coherent s → Coherent s'
  Step-Coherent (kept same now) h i d hit =
      let (u, row, eq) = h i d (rw (now i) at hit) in (u, rw same row, eq)
  Step-Coherent {s} (cached u row same now) h i d hit =
      elim (entry_cases u s i d (rw (now i) at hit)) [
        | inl (here, eq) ↦ (u, rw (same, ← here) row, eq)
        | inr (_, old) ↦ let (v, at_i, eq) = h i d old in (v, rw same at_i, eq)
      ]
  Step-Coherent {s} (created f e mine free done now) h i d hit =
      elim (entry_cases e s i d (rw (now i) at hit)) [
        | inl (here, eq) ↦ (e, ground (arith, insert_cases U (with_id i i) i f s.users), eq)
        | inr (other, old) ↦
            let (v, at_i, eq) = h i d old in
            (v, ground (arith, at_i, other, insert_cases U (with_id i i) i f s.users), eq)
      ]
  Step-Coherent {s} (saved old new e row mine a done now) h i d hit =
      let (other, before) = entry_of_other old s i d (rw (now i) at hit) in
      let (v, at_i, eq) = h i d before in
      (
        v,
        ground (arith, at_i, other, a.same_id, row, save_cases U (with_id i i) i new old s.users),
        eq,
      )
  Step-Coherent {s} (forgotten old same now) h i d hit =
      let (other, before) = entry_of_other old s i d (rw (now i) at hit) in
      let (v, at_i, eq) = h i d before in (v, rw same at_i, eq)
  Step-Coherent {s} (removed old row mine done now) h i d hit =
      let (other, before) = entry_of_other old s i d (rw (now i) at hit) in
      let (v, at_i, eq) = h i d before in
      (v, ground (arith, at_i, other, row, remove_cases U (with_id i i) i old old s.users), eq)

  run-Coherent : (cs : List Call) (s : State g) → Coherent s → Coherent (run g U C ttl cs s)
  unfolding run
  run-Coherent [] s h = h
  run-Coherent (c ∷ cs) s h =
      run-Coherent cs (perform g U C ttl c s) (Step-Coherent (perform-Step g U C ttl c s) h)

  -- For ids written as the database writes them: after any history of calls of this service, from a state in which every cached user is the one in
  -- the table, `findById` answers as the table alone would: the user, if it belongs to the tenant
  -- that asks, and else the 404.
  pub run-find_by_id :
      (cs : List Call) (s : State g) (tenant_id user_id : String)
      → Coherent s
      → (find_by_id g ttl tenant_id user_id (run g U C ttl cs s)).0
        ≡ find_spec tenant_id user_id (run g U C ttl cs s)
  run-find_by_id cs s tenant_id user_id h =
      find_by_id-spec tenant_id user_id (run g U C ttl cs s) (run-Coherent cs s h)

  -- Whatever the cache holds, coherent or not, `findById` gives a tenant only its own users.
  pub find_by_id_tenant :
      (tenant_id user_id : String) (s s' : State g) (d : UserResponseDto)
      → find_by_id g ttl tenant_id user_id s ≡ (ok d, s')
      → d.tenant_id ≡ tenant_id
  unfolding find_by_id load_by_id format_response
  find_by_id_tenant tenant_id user_id s s' d h = ground (
    arith,
    find_one_cases U (with_id tenant_id user_id) user_id (with_id tenant_id user_id) s.users,
  )
