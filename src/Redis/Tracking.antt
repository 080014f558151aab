-- ===== src/Redis/Tracking.antt =====
-- The set of tracked keys covers what the service has put into the store, so `clear` empties it.
use multi_tenant_saas_gatewa.Common.{
  ℕ, String, ◌≡◌, refl, false, Option, none, List, [], ◌∷◌, ◌==◌, if◌then◌else◌, arith,
}
use multi_tenant_saas_gatewa.Entities.{Cached}
use multi_tenant_saas_gatewa.Redis.{
  CacheManager, IsLawfulCache, CacheState, contains, add_key, delete_key, delete_keys, del_all, get,
  set, del, del_multiple, clear,
}

pub data Command : Type 0 where
  sets : String → Cached → Option ℕ → Command
  dels : String → Command
  dels_multiple : List String → Command
  clears : Command

module _ (C : CacheManager) where
  unfoldable pub perform : Command → CacheState C → CacheState C
  perform (sets k v ttl) c = set C k v ttl c
  perform (dels k) c = del C k c
  perform (dels_multiple ks) c = del_multiple C ks c
  perform clears c = clear C c

  unfoldable pub run : List Command → CacheState C → CacheState C
  run [] c = c
  run (x ∷ xs) c = run xs (perform x c)

  -- A key that the store holds is tracked.
  abbrev pub Tracked : CacheState C → Type 0
  Tracked c = (k : String) → contains c.keys k ≡ false → C.get k c.store ≡ none

contains-delete_key :
    (k j : String) (keys : List String)
    → contains (delete_key k keys) j ≡ (if k == j then false else contains keys j)
unfolding delete_key
contains-delete_key k j [] = ground arith
contains-delete_key k j (x ∷ keys) = ground (arith, contains-delete_key k j keys)

module _ (C : CacheManager) (L : IsLawfulCache C) where
  get-del_all :
      (ks : List String) (j : String) (s : C.Store)
      → C.get j (del_all C ks s) ≡ (if contains ks j then none else C.get j s)
  unfolding del_all
  get-del_all [] j s = refl
  get-del_all (k ∷ ks) j s = ground (arith, get-del_all ks j (C.del k s), L.get-del k j s)

  contains-delete_keys :
      (ks : List String) (j : String) (keys : List String)
      → contains (delete_keys C ks keys) j ≡ (if contains ks j then false else contains keys j)
  unfolding delete_keys
  contains-delete_keys [] j keys = refl
  contains-delete_keys (k ∷ ks) j keys =
      ground (arith, contains-delete_keys ks j (delete_key k keys), contains-delete_key k j keys)

  -- What a read gives after each command.
  pub get-del_multiple :
      (ks : List String) (j : String) (c : CacheState C)
      → get C j (del_multiple C ks c) ≡ (if contains ks j then none else get C j c)
  unfolding get del_multiple
  get-del_multiple ks j c = get-del_all ks j c.store

  perform-Tracked : (x : Command) (c : CacheState C) → Tracked C c → Tracked C (perform C x c)
  unfolding perform set del del_multiple clear add_key
  perform-Tracked (sets k v ttl) c h j out = ground (arith, L.get-set k j v ttl c.store, h j)
  perform-Tracked (dels k) c h j out =
      ground (arith, L.get-del k j c.store, contains-delete_key k j c.keys, h j)
  perform-Tracked (dels_multiple ks) c h j out =
      ground (arith, get-del_all ks j c.store, contains-delete_keys ks j c.keys, h j)
  perform-Tracked clears c h j out = ground (arith, get-del_all c.keys j c.store, h j)

  -- After any commands on a cache whose keys are tracked, they are tracked still; and `clear` then
  -- leaves no entry under any key.
  pub run-clear :
      (xs : List Command) (c : CacheState C)
      → Tracked C c
      → Tracked C (run C xs c) × ((k : String) → get C k (clear C (run C xs c)) ≡ none)
  unfolding run get clear
  run-clear [] c h = (h, λ k. ground (arith, get-del_all c.keys k c.store, h k))
  run-clear (x ∷ xs) c h = run-clear xs (perform C x c) (perform-Tracked x c h)
