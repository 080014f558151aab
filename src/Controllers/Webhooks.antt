-- ===== src/Controllers/Webhooks.antt =====
-- src/modules/webhooks/webhook.controller.ts.
use multi_tenant_saas_gatewa.Common.{ℕ, String, Bool, List}
use multi_tenant_saas_gatewa.Common.Outcome.{M, pure, ◌>>=◌}
use multi_tenant_saas_gatewa.Database.{Repository}
use multi_tenant_saas_gatewa.Auth.{AuthenticatedUser}
use multi_tenant_saas_gatewa.Webhooks.{
  Webhook, WebhookEvent, CreateWebhookDto, UpdateWebhookDto, WebhookResponseDto, UpdatedWebhook,
  Net, State,
}
use multi_tenant_saas_gatewa.Webhooks
use multi_tenant_saas_gatewa.Http.Request.{Request}
use multi_tenant_saas_gatewa.Http.Filter.{Response}
use multi_tenant_saas_gatewa.Controllers.{Context, piped, admit, serve}

-- The routes, with their parameters and bodies, the random bytes, the payload of a test and the
-- reading of the clock.
pub data Route : Type 0 where
  post : CreateWebhookDto → String → Route
  get_all : Route
  get_one : String → Route
  patch : String → UpdateWebhookDto → Route
  deletion : String → Route
  rotation : String → String → Route
  test : String → WebhookEvent → String → (ℕ → ℕ) → Route

pub data Reply : Type 0 where
  one : WebhookResponseDto → Reply
  updated : UpdatedWebhook → Reply
  many : List WebhookResponseDto → Reply
  secret : String → Reply
  delivered : Bool → Reply
  nothing : Reply

abbrev pub success : Route → ℕ
success (post dto random_bytes) = 201
success get_all = 200
success (get_one id) = 200
success (patch id dto) = 200
success (deletion id) = 204
success (rotation id random_bytes) = 201
success (test id event payload now) = 201

module _ (R : Repository Webhook) (net : Net) (c : Context) where
  unfoldable pub create :
      AuthenticatedUser → CreateWebhookDto → String → M (State R) WebhookResponseDto
  create user dto random_bytes = Webhooks.create R user.tenant_id dto random_bytes

  unfoldable pub find_all : AuthenticatedUser → M (State R) (List WebhookResponseDto)
  find_all user = Webhooks.find_all R user.tenant_id

  unfoldable pub find_one : AuthenticatedUser → String → M (State R) WebhookResponseDto
  find_one user id = piped c id (λ id. Webhooks.find_one R user.tenant_id id)

  unfoldable pub update : AuthenticatedUser → String → UpdateWebhookDto → M (State R) UpdatedWebhook
  update user id dto = piped c id (λ id. Webhooks.update R user.tenant_id id dto)

  unfoldable pub delete : AuthenticatedUser → String → M (State R) (Unit {0})
  delete user id = piped c id (λ id. Webhooks.delete R user.tenant_id id)

  unfoldable pub rotate_secret : AuthenticatedUser → String → String → M (State R) String
  rotate_secret user id random_bytes =
      piped c id (λ id. Webhooks.rotate_secret R user.tenant_id id random_bytes)

  unfoldable pub test_delivery :
      AuthenticatedUser → String → WebhookEvent → String → (ℕ → ℕ) → M (State R) Bool
  test_delivery user id event payload now =
      piped c id (λ id. Webhooks.test_delivery R net user.tenant_id id event payload now)

  unfoldable pub dispatch : AuthenticatedUser → Route → M (State R) Reply
  unfolding create find_all find_one update delete rotate_secret test_delivery
  dispatch user (post dto random_bytes) = create user dto random_bytes >>= λ d. pure (one d)
  dispatch user get_all = find_all user >>= λ ds. pure (many ds)
  dispatch user (get_one id) = find_one user id >>= λ d. pure (one d)
  dispatch user (patch id dto) = update user id dto >>= λ d. pure (updated d)
  dispatch user (deletion id) = delete user id >>= λ _. pure nothing
  dispatch user (rotation id random_bytes) =
      rotate_secret user id random_bytes >>= λ s. pure (secret s)
  dispatch user (test id event payload now) =
      test_delivery user id event payload now >>= λ b. pure (delivered b)

  unfoldable pub handle : Request → String → ℕ → Route → State R → Response (ℕ × Reply) × State R
  unfolding dispatch
  handle q uuid timestamp route =
      serve q uuid timestamp (admit c q) (λ p. dispatch p.1 route >>= λ r. pure (success route, r))
