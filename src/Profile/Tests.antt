-- ===== src/Profile/Tests.antt =====
-- The profile on the gateway in memory.
use multi_tenant_saas_gatewa.Common.{◌≡◌, refl, none, some, [], ◌∷◌, string_dec}
use multi_tenant_saas_gatewa.Common.Outcome.{ok}
use multi_tenant_saas_gatewa.Database.{Entity}
use multi_tenant_saas_gatewa.Database.Memory.{memory}
use multi_tenant_saas_gatewa.Entities.{User, user}
use multi_tenant_saas_gatewa.Redis.{set, user_key}
use multi_tenant_saas_gatewa.Gateway.{State}
use multi_tenant_saas_gatewa.Gateway.Memory.{example}
use multi_tenant_saas_gatewa.Users.{format_response}
use multi_tenant_saas_gatewa.Users.Tests.{ada, one_user}
use multi_tenant_saas_gatewa.Profile.{update_profile, format}

unfoldable warm : State example
unfolding one_user
warm = record one_user {
  cache = set example.cache (user_key "u1") (user (format_response ada)) none one_user.cache;
}

abbrev augusta : Entity User
augusta = record ada { own = record (ada.own) { name = "Augusta" } }

unfoldable renamed : State example
unfolding memory one_user warm
renamed = record warm { users = augusta ∷ [] }

renames : update_profile example "u1" "acme" (some "Augusta") warm ≡ (ok (format augusta), renamed)
unfolding update_profile memory string_dec one_user warm renamed
renames = refl
