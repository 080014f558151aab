-- ===== src/Users/Tests.antt =====
-- The user service on the gateway in memory.
use multi_tenant_saas_gatewa.Common.{
  String, ◌≡◌, ◌≢◌, ◌↔◌, refl, false, none, some, [], ◌∷◌, arith, string_dec, concat,
}
use multi_tenant_saas_gatewa.Common.Outcome.{ok}
use multi_tenant_saas_gatewa.Database.{Entity}
use multi_tenant_saas_gatewa.Database.Memory.{memory, memory-IsLawful}
use multi_tenant_saas_gatewa.Entities.{User, Tenant, active}
use multi_tenant_saas_gatewa.Redis.{get}
use multi_tenant_saas_gatewa.Gateway.{State}
use multi_tenant_saas_gatewa.Gateway.Memory.{
  example, users-IsLawful, cache_of_entries, cache_of_entries-IsLawfulCache, list_kafka, lookup,
}
use multi_tenant_saas_gatewa.Users.{format_response, find_by_id, load_by_id}
use multi_tenant_saas_gatewa.Users.Emails.{UniqueEmails}
use multi_tenant_saas_gatewa.Users.Steps.{creates, finds_by_id, deletes, perform, run}
use multi_tenant_saas_gatewa.Users.Cache.{Coherent, find_spec, run-find_by_id}
use multi_tenant_saas_gatewa.Users.Table.{run-UniqueEmails, perform_isolated_users}
use text.Mathlib.TextEquality.{eq_iff}

abbrev pub ada : Entity User
ada = record {
  base = record { id = "u1"; created_at = 0; updated_at = 0; deleted_at = none };
  own = record {
    tenant_id = "acme";
    email = "ada@acme";
    name = "Ada";
    password_hash = "#pw";
    status = active;
    email_verified = false;
    email_verified_at = none;
    last_login_at = none;
    roles = [];
  };
}

abbrev acme : Entity Tenant
acme = record {
  base = record { id = "acme"; created_at = 0; updated_at = 0; deleted_at = none };
  own = record {
    name = "Acme";
    slug = "acme";
    description = none;
    status = active;
    website = none;
    logo = none;
  };
}

unfoldable pub one_user : State example
unfolding memory cache_of_entries list_kafka
one_user = record {
  users = ada ∷ [];
  tenants = acme ∷ [];
  roles = [];
  permissions = [];
  reset_tokens = [];
  cache = record { keys = []; store = [] };
  bus = [];
}

pub one_user-UniqueEmails : UniqueEmails example users-IsLawful one_user.users
unfolding memory memory-IsLawful one_user
one_user-UniqueEmails i j u v p q tenants emails = ground arith

one_user-Coherent : Coherent example users-IsLawful cache_of_entries-IsLawfulCache 300 one_user
unfolding cache_of_entries lookup get one_user
one_user-Coherent i d hit = absurd (ground arith)

run-find_by_id_example :
    (find_by_id example 300 "acme" "u1" (
      run example users-IsLawful cache_of_entries-IsLawfulCache 300
        (finds_by_id "acme" "u1" ∷ deletes "acme" "u1" 7 8 ∷ [])
        one_user)).0
    ≡ find_spec example users-IsLawful cache_of_entries-IsLawfulCache 300 "acme" "u1" (
        run example users-IsLawful cache_of_entries-IsLawfulCache 300
          (finds_by_id "acme" "u1" ∷ deletes "acme" "u1" 7 8 ∷ [])
          one_user)
run-find_by_id_example =
    run-find_by_id example users-IsLawful cache_of_entries-IsLawfulCache 300
      (finds_by_id "acme" "u1" ∷ deletes "acme" "u1" 7 8 ∷ []) one_user "acme" "u1"
      one_user-Coherent

run-UniqueEmails_example :
    UniqueEmails example users-IsLawful
      (run example users-IsLawful cache_of_entries-IsLawfulCache 300
        (creates "acme" (record { email = "ada@acme"; name = "Eve"; password = "x" }) "s" 9 ∷ [])
        one_user).users
run-UniqueEmails_example =
    run-UniqueEmails example users-IsLawful cache_of_entries-IsLawfulCache 300
      (creates "acme" (record { email = "ada@acme"; name = "Eve"; password = "x" }) "s" 9 ∷ [])
      one_user one_user-UniqueEmails

acme_ne_globex : ◌≢◌ {A = String} "acme" "globex"
acme_ne_globex = ground (arith, eq_iff "acme" "globex")

perform_isolated_users_example : (users-IsLawful.row one_user.users "u1" ≡ some ada) ↔ (
    users-IsLawful.row
      (perform example users-IsLawful cache_of_entries-IsLawfulCache 300
        (deletes "globex" "u1" 7 8)
        one_user).users
      "u1"
    ≡ some ada)
perform_isolated_users_example =
    perform_isolated_users example users-IsLawful cache_of_entries-IsLawfulCache 300
      (deletes "globex" "u1" 7 8) one_user "u1" ada acme_ne_globex

found : (find_by_id example 300 "acme" "u1" one_user).0 ≡ ok (format_response ada)
unfolding find_by_id load_by_id memory cache_of_entries lookup string_dec concat get one_user
found = refl
