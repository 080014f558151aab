-- ===== src/Controllers/Profile.antt =====
-- src/modules/profile/profile.controller.ts.
use multi_tenant_saas_gatewa.Common.{ℕ, String, Option}
use multi_tenant_saas_gatewa.Common.Outcome.{M}
use multi_tenant_saas_gatewa.Gateway.{Gateway, State}
use multi_tenant_saas_gatewa.Auth.{AuthenticatedUser}
use multi_tenant_saas_gatewa.Profile.{ProfileResponseDto}
use multi_tenant_saas_gatewa.Profile
use multi_tenant_saas_gatewa.Http.Request.{Request}
use multi_tenant_saas_gatewa.Http.Filter.{Response}
use multi_tenant_saas_gatewa.Controllers.{Context, admit, serve}

pub data Route : Type 0 where
  get : Route
  patch : Option String → Route

module _ (g : Gateway) (c : Context) where
  unfoldable pub get_profile : AuthenticatedUser → M (State g) ProfileResponseDto
  get_profile user = Profile.get_profile g user.user_id user.tenant_id

  unfoldable pub update_profile : AuthenticatedUser → Option String → M (State g) ProfileResponseDto
  update_profile user name = Profile.update_profile g user.user_id user.tenant_id name

  unfoldable pub dispatch : AuthenticatedUser → Route → M (State g) ProfileResponseDto
  unfolding get_profile update_profile
  dispatch user get = get_profile user
  dispatch user (patch name) = update_profile user name

  unfoldable pub handle :
      Request → String → ℕ → Route → State g → Response ProfileResponseDto × State g
  unfolding dispatch
  handle q uuid timestamp route = serve q uuid timestamp (admit c q) (λ p. dispatch p.1 route)
