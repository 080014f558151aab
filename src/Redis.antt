-- ===== src/Redis.antt =====
-- src/modules/redis/cache.service.ts: the cache with its set of tracked keys. The cache manager is a
-- parameter; the passing of time, after which it drops an entry, is not part of an operation.
pub mod Keys
pub mod Tracking
pub mod Reads
mod Tests
use multi_tenant_saas_gatewa.Common.{
  ℕ, String, ◌≡◌, Bool, true, false, not, Option, none, some, List, [], ◌∷◌, ◌==◌, if◌then◌else◌,
  any, filter, concat,
}
use multi_tenant_saas_gatewa.Entities.{Cached}

-- `Cache` of cache-manager: `set` takes the time to live, in milliseconds.
pub record CacheManager : Type 1 where
  pub Store : Type 0
  pub get : String → Store → Option Cached
  pub set : String → Cached → Option ℕ → Store → Store
  pub del : String → Store → Store

-- What is read back before the time to live is over.
pub record IsLawfulCache (C : CacheManager) : Type 0 where
  pub get-set :
      (k j : String) (v : Cached) (ttl : Option ℕ) (s : C.Store)
      → C.get j (C.set k v ttl s) ≡ (if k == j then some v else C.get j s)
  pub get-del :
      (k j : String) (s : C.Store) → C.get j (C.del k s) ≡ (if k == j then none else C.get j s)

-- `Set<string>`.
abbrev pub contains : List String → String → Bool
contains keys k = any (λ j. j == k) keys

unfoldable pub add_key : String → List String → List String
add_key k keys = if contains keys k then keys else k ∷ keys

unfoldable pub delete_key : String → List String → List String
delete_key k keys = filter (λ j. not (j == k)) keys

-- `CacheService`: the state of the manager, and `cacheKeys`.
pub record CacheState (C : CacheManager) : Type 0 where
  pub keys : List String
  pub store : C.Store

module _ (C : CacheManager) where
  unfoldable pub get : String → CacheState C → Option Cached
  get k c = C.get k c.store

  unfoldable pub set : String → Cached → Option ℕ → CacheState C → CacheState C
  set k v ttl c = record c { keys = add_key k c.keys; store = C.set k v ttl c.store }

  unfoldable pub del : String → CacheState C → CacheState C
  del k c = record c { keys = delete_key k c.keys; store = C.del k c.store }

  unfoldable pub delete_keys : List String → List String → List String
  delete_keys [] keys = keys
  delete_keys (k ∷ ks) keys = delete_keys ks (delete_key k keys)

  unfoldable pub del_all : List String → C.Store → C.Store
  del_all [] s = s
  del_all (k ∷ ks) s = del_all ks (C.del k s)

  unfoldable pub del_multiple : List String → CacheState C → CacheState C
  unfolding delete_keys del_all
  del_multiple ks c = record c { keys = delete_keys ks c.keys; store = del_all ks c.store }

  unfoldable pub clear : CacheState C → CacheState C
  unfolding del_all
  clear c = record c { keys = []; store = del_all c.keys c.store }

unfoldable pub tenant_key : String → String
tenant_key tenant_id = concat ("tenant:" ∷ tenant_id ∷ [])

unfoldable pub tenant_list_key : String
tenant_list_key = "tenants:list"

unfoldable pub user_key : String → String
user_key user_id = concat ("user:" ∷ user_id ∷ [])

unfoldable pub user_list_key : String → String
user_list_key tenant_id = concat ("users:" ∷ tenant_id ∷ ":list" ∷ [])

module _ (C : CacheManager) where
  unfoldable pub invalidate_tenant : String → CacheState C → CacheState C
  invalidate_tenant tenant_id = del_multiple C (tenant_key tenant_id ∷ tenant_list_key ∷ [])

  unfoldable pub invalidate_user : String → String → CacheState C → CacheState C
  invalidate_user user_id tenant_id =
      del_multiple C (user_key user_id ∷ user_list_key tenant_id ∷ [])
