-- ===== src/Dto/Webhooks.antt =====
-- The webhook controller with its bodies: `ValidationPipe` on the bodies of src/modules/webhooks/webhook.controller.ts. Where a body and an id are both
-- invalid, the body is reported here.
pub mod Limits
pub mod Attempts
use multi_tenant_saas_gatewa.Common.{
  ℕ, ◌≤◌, String, ◌≡◌, refl, ap, ◌∙◌, ◌⊎◌, inl, inr, Bool, true, false, Option, none, some, List,
  [], ◌∷◌, ◌==◌, leb, get_or, arith, if◌then◌else◌, Option-cases, Bool-cases,
}
use multi_tenant_saas_gatewa.Common.Outcome.{Result, ok, throw, M, pure, ◌>>=◌}
use multi_tenant_saas_gatewa.Database.{Entity, Repository, IsLawful}
use multi_tenant_saas_gatewa.Database.Laws.{Result-cases, find_one_cases}
use multi_tenant_saas_gatewa.Auth.{AuthenticatedUser}
use multi_tenant_saas_gatewa.Webhooks.{
  Webhook, WebhookEvent, CreateWebhookDto, UpdateWebhookDto, Net, State, deliver, request, assign,
  new_webhook, generate_secret, with_id,
}
use multi_tenant_saas_gatewa.Webhooks
use multi_tenant_saas_gatewa.Webhooks.Delivery.{posted}
use multi_tenant_saas_gatewa.Webhooks.Retries.{deliver_bounded}
use multi_tenant_saas_gatewa.Webhooks.Tenancy.{SameRoute, attempts_table}
use multi_tenant_saas_gatewa.Http.Request.{Request}
use multi_tenant_saas_gatewa.Http.Filter.{Response}
use multi_tenant_saas_gatewa.Controllers.{
  Context, lift, piped, piped_cases, admit, serve, serve_cases,
}
use multi_tenant_saas_gatewa.Controllers.Webhooks.{
  Route, post, get_all, get_one, patch, deletion, rotation, test, Reply, success, dispatch,
}
use multi_tenant_saas_gatewa.Dto.{Validators, Fields, transform}
use multi_tenant_saas_gatewa.Dto.Tenants.{create_webhook_dto, update_webhook_dto, webhook_test_dto}

-- A request's route, with its body as it was sent.
pub data Call : Type 0 where
  posts : Fields → String → Call
  gets_all : Call
  gets_one : String → Call
  patches : String → Fields → Call
  deletes : String → Call
  rotates : String → String → Call
  tests : String → Fields → String → (ℕ → ℕ) → Call

abbrev on_ok : {A B : Type 0} → (A → B) → Result A → Result B
on_ok f (ok a) = ok (f a)
on_ok f (throw e) = throw e

unfoldable pub route_of : Validators → Call → Result Route
route_of V (posts body random_bytes) =
    on_ok (λ dto. post dto random_bytes) (transform V body (create_webhook_dto V body))
route_of V gets_all = ok get_all
route_of V (gets_one id) = ok (get_one id)
route_of V (patches id body) =
    on_ok (λ dto. patch id dto) (transform V body (update_webhook_dto V body))
route_of V (deletes id) = ok (deletion id)
route_of V (rotates id random_bytes) = ok (rotation id random_bytes)
route_of V (tests id body payload now) =
    on_ok (λ event. test id event payload now) (transform V body (webhook_test_dto V body))

module _ (R : Repository Webhook) (net : Net) (c : Context) (V : Validators) where
  abbrev pub answer : AuthenticatedUser → Route → M (State R) (ℕ × Reply)
  answer user route = dispatch R net c user route >>= λ r. pure (success route, r)

  unfoldable pub handle : Request → String → ℕ → Call → State R → Response (ℕ × Reply) × State R
  unfolding route_of
  handle q uuid timestamp call =
      serve q uuid timestamp (admit c q) (λ p. lift (route_of V call) >>= answer p.1)

  -- The state that a list of requests leaves.
  unfoldable pub run : List (Request × String × ℕ × Call) → State R → State R
  unfolding handle
  run [] s = s
  run ((q, uuid, timestamp, call) ∷ rest) s = run rest (handle q uuid timestamp call s).1
