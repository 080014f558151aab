-- ===== src/ApiKeys/Tenancy.antt =====
-- A call touches the keys of one tenant only, and brings no dead key back to life.
use multi_tenant_saas_gatewa.Common.{
  String, ◌≡◌, ◌≢◌, ◌↔◌, refl, ap, ◌⊎◌, inl, inr, false, Option, none, some, List, [], ◌∷◌, ◌++◌,
  arith, Option-cases,
}
use multi_tenant_saas_gatewa.Database.{Entity, Repository, IsLawful}
use multi_tenant_saas_gatewa.Database.Laws.{insert_cases, save_cases, remove_cases}
use multi_tenant_saas_gatewa.ApiKeys.{ApiKey, ApiKeyStatus, Config, active_of, is_active}
use multi_tenant_saas_gatewa.ApiKeys.Steps.{
  Call, Step, unchanged, created, saved, removed, Transition, stays, revokes, expires, scope,
  perform, perform-Step, run,
}

dead_stays : {s s' : ApiKeyStatus} → Transition s s' → is_active s ≡ false → is_active s' ≡ false
dead_stays stays h = h
dead_stays revokes h = refl
dead_stays expires h = refl

module _ (hmac : String → String → String) (R : Repository ApiKey) (L : IsLawful R)
    (cfg : Config) where
  -- A row of another tenant is there before the step exactly when it is there after it.
  abbrev SameElsewhere : String → R.Table → R.Table → Type 0
  SameElsewhere owner t t' =
      (i : String) (e : Entity ApiKey)
      → e.own.tenant_id ≢ owner
      → (L.row t i ≡ some e) ↔ (L.row t' i ≡ some e)

  Step-SameElsewhere :
      {owner : String} {t t' : R.Table} → Step hmac R L cfg owner t t' → SameElsewhere owner t t'
  Step-SameElsewhere (unchanged same) i e other = (λ h. rw same h, λ h. rw same at h)
  Step-SameElsewhere {t} (created k x mine alive room free done) i e other =
      ground (arith, insert_cases L (active_of i) i k t)
  Step-SameElsewhere {t} (saved old new x row mine a done) i e other =
      ground (
        arith,
        a.same_tenant,
        a.same_id,
        row,
        L.row_id t i e,
        save_cases L (active_of i) i new old t,
      )
  Step-SameElsewhere {t} (removed old row mine done) i e other =
      ground (arith, row, remove_cases L (active_of i) i old old t)

  -- Whatever a tenant calls, the API keys of all other tenants are the same afterwards; and a
  -- validation touches only the tenant of the key that it is given.
  pub perform_isolated :
      (c : Call) (t : R.Table) (i : String) (e : Entity ApiKey)
      → e.own.tenant_id ≢ scope hmac R L cfg c t
      → (L.row t i ≡ some e) ↔ (L.row (perform hmac R L cfg c t) i ≡ some e)
  perform_isolated c t i e other = Step-SameElsewhere (perform-Step hmac R L cfg c t) i e other

  -- The row is gone, or belongs to a key that is not active.
  abbrev pub IsDead : Option (Entity ApiKey) → Type 0
  IsDead none = Unit
  IsDead (some e) = is_active e.own.status ≡ false

  Step-IsDead :
      {owner : String} {t t' : R.Table} (i : String) (e : Entity ApiKey)
      → Step hmac R L cfg owner t t'
      → L.row t i ≡ some e
      → is_active e.own.status ≡ false
      → IsDead (L.row t' i)
  Step-IsDead {t} i e (unchanged same) row dead = rw (same, row) dead
  Step-IsDead {t} i e (created k x mine alive room free done) row dead =
      ground (arith, insert_cases L (active_of i) i k t)
  Step-IsDead {t} i e (saved old new x stored mine a done) row dead = ground (
    arith,
    a.same_id,
    L.row_id t i e,
    dead_stays a.transition,
    save_cases L (active_of i) i new old t,
  )
  Step-IsDead {t} i e (removed old stored mine done) row dead =
      ground (arith, remove_cases L (active_of i) i old old t)

  -- At the end of a history the key is there and not active, or at some point its row was gone.
  abbrev pub StaysDead : List Call → R.Table → String → Type 0
  StaysDead cs t i =
      ((e : Entity ApiKey) × (L.row (run hmac R L cfg cs t) i ≡ some e)
        × (is_active e.own.status ≡ false))
      ⊎ ((before later : List Call) × (before ++ later ≡ cs)
          × (L.row (run hmac R L cfg before t) i ≡ none))

  -- A key that was revoked or has expired is not active after any history of calls, unless its row
  -- was removed on the way.
  pub run-StaysDead :
      (cs : List Call) (t : R.Table) (i : String) (e : Entity ApiKey)
      → L.row t i ≡ some e
      → is_active e.own.status ≡ false
      → StaysDead cs t i
  unfolding run
  run-StaysDead [] t i e row dead = inl (e, row, dead)
  run-StaysDead (c ∷ cs) t i e row dead = elim (Option-cases (L.row t' i)) [
    | inl gone ↦ inr (c ∷ [], cs, refl, gone)
    | inr (k, there) ↦
        let later =
          run-StaysDead cs t' i k there
            (rw there at (Step-IsDead i e (perform-Step hmac R L cfg c t) row dead)) in
        elim later [
          | inl still ↦ inl still
          | inr (before, rest, split, gone) ↦ inr (c ∷ before, rest, ap (λ l. c ∷ l) split, gone)
        ]
  ]
    where
      t' : R.Table
      t' = perform hmac R L cfg c t
