-- ===== src/Controllers/Auth/Tests.antt =====
-- A session on the gateway in memory.
use multi_tenant_saas_gatewa.Common.{◌≡◌, refl, true, string_dec, concat}
use multi_tenant_saas_gatewa.Common.Outcome.{ok}
use multi_tenant_saas_gatewa.Database.Memory.{memory}
use multi_tenant_saas_gatewa.Gateway.Memory.{example}
use multi_tenant_saas_gatewa.Users.Tests.{one_user}
use multi_tenant_saas_gatewa.Auth
use multi_tenant_saas_gatewa.Auth.{generate, required, extract_hours, leading_number}
use multi_tenant_saas_gatewa.Auth.Tests.{ada_in, after_login}
use multi_tenant_saas_gatewa.Http.Filter.{answered, respond}
use multi_tenant_saas_gatewa.Http.Middleware.{resolve_tenant, split_dots, extract_subdomain}
use multi_tenant_saas_gatewa.Http.Tests.{
  request, request_of_ada, tokens_for_ada, token_config, tokens_of_ada,
}
use multi_tenant_saas_gatewa.Controllers.{Context, admit_public, serve}
use multi_tenant_saas_gatewa.Controllers.Auth.{log_in, login, tokens, handle}

abbrev context : Context
context = record { jwt = tokens_for_ada; secret = "s"; is_uuid = λ id. true }

pub resolves_acme : resolve_tenant request_of_ada ≡ ok "acme"
unfolding resolve_tenant extract_subdomain split_dots string_dec
resolves_acme = refl

pub logs_in :
    handle example token_config (λ s. s) context request "id" 9 (log_in ada_in 77) one_user
    ≡ (answered (201, tokens tokens_of_ada), after_login)
unfolding handle login serve respond admit_public resolve_tenant extract_subdomain split_dots
    generate required extract_hours leading_number tokens_for_ada Auth.login memory string_dec
    concat one_user after_login
logs_in = refl
