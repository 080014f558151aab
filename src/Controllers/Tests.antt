-- ===== src/Controllers/Tests.antt =====
-- Requests to the controllers, on a gateway in memory.
use multi_tenant_saas_gatewa.Common.{
  String, ◌≡◌, ◌≢◌, ◌↔◌, refl, sym, subst, true, none, some, [], ◌∷◌, ◌==◌, if◌then◌else◌, arith,
  string_dec, concat,
}
use multi_tenant_saas_gatewa.Common.Outcome.{Result, ok}
use multi_tenant_saas_gatewa.Database.{Entity}
use multi_tenant_saas_gatewa.Database.Memory.{memory, memory-IsLawful}
use multi_tenant_saas_gatewa.Entities.{User}
use multi_tenant_saas_gatewa.Gateway.{State}
use multi_tenant_saas_gatewa.Gateway.Memory.{
  example, users-IsLawful, cache_of_entries-IsLawfulCache,
}
use multi_tenant_saas_gatewa.Users.Tests.{ada, one_user}
use multi_tenant_saas_gatewa.Auth.{AuthenticatedUser, Jwt, JwtPayload}
use multi_tenant_saas_gatewa.ApiKeys.{ApiKey, Config, active}
use multi_tenant_saas_gatewa.Audit.{AuditLog, Audited}
use multi_tenant_saas_gatewa.Http.Middleware.{resolve_tenant, split_dots, extract_subdomain}
use multi_tenant_saas_gatewa.Http.Guards.{jwt_guard}
use multi_tenant_saas_gatewa.Http.Tests.{request, request_of_ada, ada_claims, tokens_for_ada}
use multi_tenant_saas_gatewa.Controllers.{Context}
use multi_tenant_saas_gatewa.Controllers.ApiKeys
use multi_tenant_saas_gatewa.Controllers.Users
use multi_tenant_saas_gatewa.Controllers.Users.Tokens.{handle_ignores_token}
use multi_tenant_saas_gatewa.Controllers.Users.Tenancy.{handle_isolated_users}
use text.Mathlib.TextEquality.{eq_iff}

abbrev context : Context
context = record { jwt = tokens_for_ada; secret = "s"; is_uuid = λ id. true }

abbrev join : String → String → String
join k s = concat (k ∷ "/" ∷ s ∷ [])

abbrev key_config : Config
key_config = record { max_active = 1; hash_secret = "salt"; last_used_update_interval = 10 }

abbrev key_of_globex : Entity ApiKey
key_of_globex = record {
  base = record { id = "k1"; created_at = 0; updated_at = 0; deleted_at = none };
  own = record {
    tenant_id = "globex";
    name = "ci";
    key = "sk_1";
    secret = "h";
    status = active;
    expires_at = none;
    last_used_at = none;
    scopes = [];
  };
}

unfoldable keys : (memory ApiKey).Table
unfolding memory
keys = key_of_globex ∷ []

globex_ne_acme : ◌≢◌ {A = String} "globex" "acme"
globex_ne_acme = ground (arith, eq_iff "globex" "acme")

not_of_globex :
    (u : AuthenticatedUser)
    → jwt_guard tokens_for_ada "s" request_of_ada ≡ ok u
    → "globex" ≢ u.tenant_id
unfolding jwt_guard tokens_for_ada string_dec concat
not_of_globex u h = ground (arith, h, globex_ne_acme)

handle_isolated_example : ((memory-IsLawful ApiKey).row keys "k1" ≡ some key_of_globex) ↔ (
    (memory-IsLawful ApiKey).row
      (ApiKeys.handle join
        (memory ApiKey)
        key_config
        context
        request_of_ada
        "id"
        9
        (ApiKeys.deletion "k1")
        keys).1
      "k1"
    ≡ some key_of_globex)
handle_isolated_example =
    ApiKeys.handle_isolated join (memory ApiKey) (memory-IsLawful ApiKey) key_config context
      request_of_ada "id" 9 (ApiKeys.deletion "k1") keys "k1" key_of_globex not_of_globex

-- Tokens of two users: Ada of acme, and Eve of globex.
abbrev eve_claims : JwtPayload
eve_claims = record { sub = "u9"; email = "eve@globex"; tenant_id = "globex" }

abbrev tokens_of_two : Jwt
tokens_of_two = record {
  sign = λ p secret expires_in. ok p.sub;
  verify = λ token secret. if token == "u1" then ok ada_claims else ok eve_claims;
}

abbrev context_of_two : Context
context_of_two = record { jwt = tokens_of_two; secret = "s"; is_uuid = λ id. true }

abbrev audited_start : Audited (memory AuditLog) (State example)
unfolding memory
audited_start = record { inner = one_user; log = [] }

abbrev deletes_ada : Users.Route
deletes_ada = Users.deletion "u1" 7 8

handle_ignores_token_example :
    let by_ada =
      Users.handle example 300
        (λ a b. true)
        context_of_two
        (memory AuditLog)
        (λ e. "?")
        (record request { bearer_token = some "u1" })
        "id"
        9
        deletes_ada
        audited_start in
    let by_eve =
      Users.handle example 300
        (λ a b. true)
        context_of_two
        (memory AuditLog)
        (λ e. "?")
        (record request { bearer_token = some "u9" })
        "id"
        9
        deletes_ada
        audited_start in
    (by_ada.0 ≡ by_eve.0) × (by_ada.1.inner ≡ by_eve.1.inner)
unfolding string_dec
handle_ignores_token_example =
    handle_ignores_token example 300 (λ a b. true) context_of_two (memory AuditLog) (λ e. "?") "id"
      9 deletes_ada request audited_start "u1" "u9" ada_claims eve_claims refl refl

resolves_acme : resolve_tenant request ≡ ok "acme"
unfolding resolve_tenant extract_subdomain split_dots string_dec
resolves_acme = refl

abbrev user_of_globex : Entity User
user_of_globex = record ada { own = record (ada.own) { tenant_id = "globex" } }

ok_globex_ne : ◌≢◌ {A = Result String} (ok "acme") (ok "globex")
ok_globex_ne = ground (arith, globex_ne_acme)

handle_isolated_users_example :
    (users-IsLawful.row audited_start.inner.users "u1" ≡ some user_of_globex) ↔ (
      users-IsLawful.row
        (Users.handle example 300
          (λ a b. true)
          context_of_two
          (memory AuditLog)
          (λ e. "?")
          request
          "id"
          9
          deletes_ada
          audited_start).1.inner.users
        "u1"
      ≡ some user_of_globex)
handle_isolated_users_example =
    handle_isolated_users example users-IsLawful cache_of_entries-IsLawfulCache 300 (λ a b. true)
      context_of_two (memory AuditLog) (λ e. "?") request "id" 9 deletes_ada audited_start "u1"
      user_of_globex (subst (λ r. r ≢ ok "globex") (sym resolves_acme) ok_globex_ne)
