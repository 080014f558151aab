-- ===== src/Gateway/Memory.antt =====
-- A gateway in memory, on which the theorems are used: tables and a cache that are lists, a Kafka
-- client that delivers all, and a hash that is readable.
use multi_tenant_saas_gatewa.Common.{
  String, ◌≡◌, Option, none, some, List, [], ◌∷◌, ◌==◌, not, if◌then◌else◌, filter, concat, arith,
}
use multi_tenant_saas_gatewa.Common.Outcome.{ok}
use multi_tenant_saas_gatewa.Database.Memory.{memory, memory-IsLawful}
use multi_tenant_saas_gatewa.Database.{IsLawful}
use multi_tenant_saas_gatewa.Entities.{Cached, User, Tenant, Role, Permission, PasswordResetToken}
use multi_tenant_saas_gatewa.Redis.{CacheManager, IsLawfulCache}
use multi_tenant_saas_gatewa.Events.{Kafka, Envelope}
use multi_tenant_saas_gatewa.Gateway.{Gateway, Bcrypt, IsLawfulBcrypt}

abbrev pub Entries : Type 0
Entries = List (String × Cached)

unfoldable pub lookup : String → Entries → Option Cached
lookup k [] = none
lookup k (e ∷ es) = if e.0 == k then some e.1 else lookup k es

unfoldable pub without : String → Entries → Entries
without k es = filter (λ e. not (e.0 == k)) es

lookup-without :
    (k j : String) (es : Entries) → lookup j (without k es) ≡ (if k == j then none else lookup j es)
unfolding lookup without
lookup-without k j [] = ground arith
lookup-without k j (e ∷ es) = ground (arith, lookup-without k j es)

unfoldable pub cache_of_entries : CacheManager
unfolding lookup without
cache_of_entries = record {
  Store = Entries;
  get = lookup;
  set = λ k v ttl es. (k, v) ∷ without k es;
  del = without;
}

pub cache_of_entries-IsLawfulCache : IsLawfulCache cache_of_entries
unfolding cache_of_entries lookup
cache_of_entries-IsLawfulCache = record {
  get-set = λ k j v ttl es. ground (arith, lookup-without k j es);
  get-del = lookup-without;
}

unfoldable pub list_kafka : Kafka
list_kafka = record {
  Bus = List (String × Envelope);
  emit = λ topic e bus. ok (tt, (topic, e) ∷ bus);
}

abbrev pub readable : Bcrypt
readable = record {
  hash = λ salt rounds password. concat ("#" ∷ password ∷ []);
  compare = λ password hashed. concat ("#" ∷ password ∷ []) == hashed;
}

pub readable-IsLawfulBcrypt : IsLawfulBcrypt readable
readable-IsLawfulBcrypt = record { compare-hash = λ salt rounds password. ground arith }

abbrev pub example : Gateway
example = record {
  users = memory User;
  tenants = memory Tenant;
  roles = memory Role;
  permissions = memory Permission;
  reset_tokens = memory PasswordResetToken;
  cache = cache_of_entries;
  kafka = list_kafka;
  bcrypt = readable;
}

abbrev pub users-IsLawful : IsLawful example.users
users-IsLawful = memory-IsLawful User

abbrev pub tokens-IsLawful : IsLawful example.reset_tokens
tokens-IsLawful = memory-IsLawful PasswordResetToken
