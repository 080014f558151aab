-- ===== src/Tenants/Tests.antt =====
-- The tenant service on the gateway in memory.
use multi_tenant_saas_gatewa.Common.{◌≡◌, refl, none, [], ◌∷◌, arith, string_dec, concat}
use multi_tenant_saas_gatewa.Common.Outcome.{ok, throw, error}
use multi_tenant_saas_gatewa.Database.{Entity, IsLawful}
use multi_tenant_saas_gatewa.Database.Memory.{memory, memory-IsLawful}
use multi_tenant_saas_gatewa.Entities.{Tenant, Role}
use multi_tenant_saas_gatewa.Events.{Kafka}
use multi_tenant_saas_gatewa.Gateway.{Gateway, State}
use multi_tenant_saas_gatewa.Gateway.Memory.{example, cache_of_entries}
use multi_tenant_saas_gatewa.Users.Tests.{one_user}
use multi_tenant_saas_gatewa.Tenants.{
  CreateTenantPayload, new_tenant, initialize_tenant, create_roles, default_roles,
}
use multi_tenant_saas_gatewa.Tenants.Slugs.{UniqueSlugs, creates, deletes, run, run-UniqueSlugs}

abbrev T : IsLawful example.tenants
T = memory-IsLawful Tenant

abbrev R : IsLawful example.roles
R = memory-IsLawful Role

abbrev globex : CreateTenantPayload
globex = record {
  name = "Globex";
  slug = "globex";
  description = none;
  website = none;
  logo = none;
}

one_user-UniqueSlugs : UniqueSlugs example T one_user
unfolding memory memory-IsLawful one_user
one_user-UniqueSlugs i j u v p q full slugs = ground arith

run-UniqueSlugs_example :
    UniqueSlugs example T
      (run example T (creates globex 7 ∷ creates globex 8 ∷ deletes "acme" 9 10 ∷ []) one_user)
run-UniqueSlugs_example =
    run-UniqueSlugs example T (creates globex 7 ∷ creates globex 8 ∷ deletes "acme" 9 10 ∷ [])
      one_user one_user-UniqueSlugs

unfoldable with_roles : State example
unfolding memory one_user
with_roles = (initialize_tenant example "acme" one_user).1

initializes : initialize_tenant example "acme" one_user ≡ (ok tt, with_roles)
unfolding initialize_tenant create_roles default_roles memory string_dec concat one_user with_roles
initializes = refl

-- The gateway while Kafka is down.
abbrev kafka_down : Kafka
kafka_down = record { Bus = Unit {0}; emit = λ topic m bus. throw (error "down") }

abbrev offline : Gateway
offline = record example { kafka = kafka_down }

unfoldable empty : State offline
unfolding memory cache_of_entries
empty = record {
  users = [];
  tenants = [];
  roles = [];
  permissions = [];
  reset_tokens = [];
  cache = record { keys = []; store = [] };
  bus = tt;
}

abbrev saved : Entity Tenant
saved = record {
  base = record { id = "id"; created_at = 0; updated_at = 0; deleted_at = none };
  own = new_tenant globex;
}

unfoldable one_tenant : offline.tenants.Table
unfolding memory
one_tenant = saved ∷ []
