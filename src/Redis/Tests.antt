-- ===== src/Redis/Tests.antt =====
-- The cache at a concrete store.
use multi_tenant_saas_gatewa.Common.{String, ◌≡◌, refl, none, [], ◌∷◌}
use multi_tenant_saas_gatewa.Entities.{role_names}
use multi_tenant_saas_gatewa.Redis.{CacheState, get, clear}
use multi_tenant_saas_gatewa.Redis.Tracking.{Tracked, sets, dels, run, run-clear}
use multi_tenant_saas_gatewa.Gateway.Memory.{cache_of_entries, cache_of_entries-IsLawfulCache}

abbrev fresh : CacheState cache_of_entries
unfolding cache_of_entries
fresh = record { keys = []; store = [] }

fresh-Tracked : Tracked cache_of_entries fresh
unfolding cache_of_entries
fresh-Tracked k out = refl

run-clear_example :
    Tracked cache_of_entries (
      run cache_of_entries
        (sets "a" (role_names []) none ∷ sets "b" (role_names []) none ∷ dels "a" ∷ [])
        fresh)
    × ((k : String)
        → get cache_of_entries k (
            clear cache_of_entries (
              run cache_of_entries
                (sets "a" (role_names []) none ∷ sets "b" (role_names []) none ∷ dels "a" ∷ [])
                fresh))
          ≡ none)
run-clear_example =
    run-clear cache_of_entries cache_of_entries-IsLawfulCache
      (sets "a" (role_names []) none ∷ sets "b" (role_names []) none ∷ dels "a" ∷ []) fresh
      fresh-Tracked
