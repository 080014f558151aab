-- ===== src/Controllers/Auth.antt =====
-- src/modules/auth/auth.controller.ts.
pub mod Session
pub mod Tests
use multi_tenant_saas_gatewa.Common.{ℕ, String, ◌≡◌, Option, some}
use multi_tenant_saas_gatewa.Common.Outcome.{Result, ok, throw, M, pure, ◌>>=◌}
use multi_tenant_saas_gatewa.Gateway.{Gateway, State}
use multi_tenant_saas_gatewa.Auth.{
  AuthenticatedUser, RegisterDto, LoginDto, RefreshTokenDto, ForgotPasswordDto, ResetPasswordDto,
  ChangePasswordDto, TokenConfig, TokenResponseDto, generate,
}
use multi_tenant_saas_gatewa.Auth
use multi_tenant_saas_gatewa.Http.Request.{Request}
use multi_tenant_saas_gatewa.Http.Filter.{Response}
use multi_tenant_saas_gatewa.Controllers.{Context, lift, admit, admit_public, serve}

-- The routes, with their bodies, the texts that the services draw, and the readings of the clock.
pub data Route : Type 0 where
  registration : RegisterDto → String → Route
  log_in : LoginDto → ℕ → Route
  refreshing : RefreshTokenDto → Route
  me : Route
  forgotten : ForgotPasswordDto → String → ℕ → Route
  resetting : ResetPasswordDto → String → ℕ → Route
  changing : ChangePasswordDto → String → Route

pub data Reply : Type 0 where
  tokens : TokenResponseDto → Reply
  current : AuthenticatedUser → Reply
  message : String → Reply
  nothing : Reply

module _ (g : Gateway) (cfg : TokenConfig) (sha256 : String → String) (c : Context) where
  unfoldable pub register : RegisterDto → String → M (State g) TokenResponseDto
  register dto salt = Auth.register g dto salt >>= λ u. lift (generate c.jwt cfg u)

  unfoldable pub login : LoginDto → ℕ → M (State g) TokenResponseDto
  login dto now = Auth.login g dto now >>= λ u. lift (generate c.jwt cfg u)

  unfoldable pub refresh_token : RefreshTokenDto → M (State g) TokenResponseDto
  refresh_token dto =
      Auth.refresh g c.jwt cfg.refresh_secret dto >>= λ u. lift (generate c.jwt cfg u)

  unfoldable pub get_current_user : AuthenticatedUser → M (State g) AuthenticatedUser
  get_current_user user = pure user

  unfoldable pub forgot_password : ForgotPasswordDto → String → ℕ → M (State g) String
  forgot_password dto raw_token now = Auth.request_reset g sha256 dto raw_token now

  unfoldable pub reset_password : ResetPasswordDto → String → ℕ → M (State g) (Unit {0})
  reset_password dto salt now = Auth.reset_password g sha256 dto salt now

  unfoldable pub change_password :
      AuthenticatedUser → ChangePasswordDto → String → M (State g) (Unit {0})
  change_password user dto salt = Auth.change_password g user.user_id user.tenant_id dto salt

  -- A route behind its guards, with the status of its answer: `@HttpCode`, or what Nest gives the
  -- method.
  unfoldable pub handle : Request → String → ℕ → Route → State g → Response (ℕ × Reply) × State g
  unfolding register login refresh_token get_current_user forgot_password reset_password
      change_password
  handle q uuid timestamp (registration dto salt) =
      serve q uuid timestamp (admit_public q) (λ _. register dto salt >>= λ r. pure (201, tokens r))
  handle q uuid timestamp (log_in dto now) =
      serve q uuid timestamp (admit_public q) (λ _. login dto now >>= λ r. pure (201, tokens r))
  handle q uuid timestamp (refreshing dto) =
      serve q uuid timestamp (admit_public q) (λ _. refresh_token dto >>= λ r. pure (201, tokens r))
  handle q uuid timestamp me =
      serve q uuid timestamp (admit c q) (λ p. get_current_user p.1 >>= λ u. pure (200, current u))
  handle q uuid timestamp (forgotten dto raw_token now) =
      serve q uuid timestamp (admit_public q)
        (λ _. forgot_password dto raw_token now >>= λ m. pure (200, message m))
  handle q uuid timestamp (resetting dto salt now) =
      serve q uuid timestamp (admit_public q)
        (λ _. reset_password dto salt now >>= λ _. pure (204, nothing))
  handle q uuid timestamp (changing dto salt) =
      serve q uuid timestamp (admit c q)
        (λ p. change_password p.1 dto salt >>= λ _. pure (204, nothing))
