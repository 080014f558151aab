-- ===== src/Redis/Reads.antt =====
-- What a read under a key of a user or a tenant gives after each write of the services.
use multi_tenant_saas_gatewa.Common.{
  ℕ, String, ◌≡◌, ap, Option, none, some, [], ◌∷◌, ◌==◌, if◌then◌else◌, arith,
}
use multi_tenant_saas_gatewa.Entities.{Cached}
use multi_tenant_saas_gatewa.Redis.{
  CacheManager, IsLawfulCache, CacheState, get, set, del, invalidate_user, user_key, user_list_key,
}
use multi_tenant_saas_gatewa.Redis.Keys.{user_key_injective, user_key-ne-user_list_key}
use multi_tenant_saas_gatewa.Redis.Tracking.{get-del_multiple}

module _ {C : CacheManager} (L : IsLawfulCache C) (c : CacheState C) where
  pub get-set :
      (k j : String) (v : Cached) (ttl : Option ℕ)
      → get C j (set C k v ttl c) ≡ (if k == j then some v else get C j c)
  unfolding get set
  get-set k j v ttl = L.get-set k j v ttl c.store

  pub get-del : (k j : String) → get C j (del C k c) ≡ (if k == j then none else get C j c)
  unfolding get del
  get-del k j = L.get-del k j c.store

  pub get_user-set_user :
      (i j : String) (v : Cached) (ttl : Option ℕ)
      → get C (user_key j) (set C (user_key i) v ttl c)
        ≡ (if i == j then some v else get C (user_key j) c)
  get_user-set_user i j v ttl = ground (
    arith,
    get-set (user_key i) (user_key j) v ttl,
    user_key_injective i j,
    ap user_key {x = i} {y = j},
  )

  pub get_user-del_list :
      (t j : String) → get C (user_key j) (del C (user_list_key t) c) ≡ get C (user_key j) c
  get_user-del_list t j =
      ground (arith, get-del (user_list_key t) (user_key j), user_key-ne-user_list_key j t)

  pub get_user-invalidate_user :
      (i t j : String)
      → get C (user_key j) (invalidate_user C i t c)
        ≡ (if i == j then none else get C (user_key j) c)
  unfolding invalidate_user
  get_user-invalidate_user i t j = ground (
    arith,
    get-del_multiple C L (user_key i ∷ user_list_key t ∷ []) (user_key j) c,
    user_key_injective i j,
    user_key-ne-user_list_key j t,
    ap user_key {x = i} {y = j},
  )
