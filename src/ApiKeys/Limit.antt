-- ===== src/ApiKeys/Limit.antt =====
-- What every history of calls keeps: the limit on active keys of a tenant, and keys that are unique.
use multi_tenant_saas_gatewa.Common.{◌≤◌, String, ◌≡◌, Bool, some, List, [], ◌∷◌, ◌==◌, arith, ◌&&◌}
use multi_tenant_saas_gatewa.Database.{Entity, Repository, IsLawful, bit}
use multi_tenant_saas_gatewa.Database.Laws.{insert_cases, save_cases, remove_cases}
use multi_tenant_saas_gatewa.ApiKeys.{ApiKey, ApiKeyStatus, Config, active_of, with_key, is_active}
use multi_tenant_saas_gatewa.ApiKeys.Steps.{
  Call, Step, unchanged, created, saved, removed, Transition, stays, revokes, expires, perform,
  perform-Step, run,
}

-- A transition makes no key active.
pub bit-Transition :
    {s s' : ApiKeyStatus}
    → Transition s s'
    → (b : Bool) → bit (b && is_active s') ≤ bit (b && is_active s)
bit-Transition stays b = omega arith
bit-Transition revokes b = ground arith
bit-Transition expires b = ground arith

module _ (hmac : String → String → String) (R : Repository ApiKey) (L : IsLawful R)
    (cfg : Config) where
  -- No tenant has more active keys than the configuration allows.
  abbrev pub WithinLimit : R.Table → Type 0
  WithinLimit t = (tenant_id : String) → R.count (active_of tenant_id) t ≤ cfg.max_active

  -- No two rows have the same key.
  abbrev pub UniqueKeys : R.Table → Type 0
  UniqueKeys t =
      (i j : String) (e f : Entity ApiKey)
      → L.row t i ≡ some e
      → L.row t j ≡ some f
      → e.own.key ≡ f.own.key
      → i ≡ j

  Step-WithinLimit :
      {T : String} {t t' : R.Table} → Step hmac R L cfg T t t' → WithinLimit t → WithinLimit t'
  Step-WithinLimit (unchanged e) h T = rw e (h T)
  Step-WithinLimit {t} (created k e mine alive room free done) h T =
      ground (arith, h T, insert_cases L (active_of T) T k t)
  Step-WithinLimit {t} (saved old new e row mine a done) h T = ground (
    arith,
    h T,
    a.same_tenant,
    a.same_id,
    bit-Transition a.transition (old.own.tenant_id == T),
    save_cases L (active_of T) T new old t,
  )
  Step-WithinLimit {t} (removed old row mine done) h T =
      ground (arith, h T, remove_cases L (active_of T) T old old t)

  pub Step-UniqueKeys :
      {T : String} {t t' : R.Table} → Step hmac R L cfg T t t' → UniqueKeys t → UniqueKeys t'
  Step-UniqueKeys (unchanged e) u i j x y p q same = u i j x y (rw e at p) (rw e at q) same
  Step-UniqueKeys {t} (created k e mine alive room free done) u i j x y p q same = ground (
    arith,
    u i j x y,
    insert_cases L (active_of i) i k t,
    insert_cases L (active_of i) j k t,
    L.find_one_none (with_key k.key) t i x free,
    L.find_one_none (with_key k.key) t j y free,
  )
  Step-UniqueKeys {t} (saved old new e row mine a done) u i j x y p q same = ground (
    arith,
    a.same_key,
    a.same_id,
    row,
    u i j x y,
    u old.id j old y,
    u i old.id x old,
    save_cases L (active_of i) i new old t,
    save_cases L (active_of i) j new old t,
  )
  Step-UniqueKeys {t} (removed old row mine done) u i j x y p q same = ground (
    arith,
    u i j x y,
    remove_cases L (active_of i) i old old t,
    remove_cases L (active_of i) j old old t,
  )

  -- After any history of calls on a table within the limit, every tenant is within it still.
  pub run_limit :
      (cs : List Call) (t : R.Table) (tenant_id : String)
      → WithinLimit t
      → R.count (active_of tenant_id) (run hmac R L cfg cs t) ≤ cfg.max_active
  unfolding run
  run_limit [] t tenant_id h = h tenant_id
  run_limit (c ∷ cs) t tenant_id h =
      run_limit cs (perform hmac R L cfg c t) tenant_id
        (Step-WithinLimit (perform-Step hmac R L cfg c t) h)

  -- Keys that were unique stay unique.
  run-UniqueKeys :
      (cs : List Call) (t : R.Table) → UniqueKeys t → UniqueKeys (run hmac R L cfg cs t)
  unfolding run
  run-UniqueKeys [] t u = u
  run-UniqueKeys (c ∷ cs) t u =
      run-UniqueKeys cs (perform hmac R L cfg c t)
        (Step-UniqueKeys (perform-Step hmac R L cfg c t) u)
