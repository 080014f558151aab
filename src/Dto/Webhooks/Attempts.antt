-- ===== src/Dto/Webhooks/Attempts.antt =====
-- How many requests a delivery sends, after any history of requests to the webhook controller.
use multi_tenant_saas_gatewa.Common.{
  ℕ, ◌≤◌, String, ◌≡◌, refl, subst, inl, inr, true, Option, none, some, List, [], ◌∷◌, get_or,
  arith,
}
use multi_tenant_saas_gatewa.Common.Outcome.{Result, ok, throw, M, pure, after, ◌>>=◌}
use multi_tenant_saas_gatewa.Database.{Entity, Repository, IsLawful}
use multi_tenant_saas_gatewa.Auth.{AuthenticatedUser}
use multi_tenant_saas_gatewa.Webhooks.{
  Webhook, WebhookEvent, CreateWebhookDto, UpdateWebhookDto, Net, State, deliver, request,
}
use multi_tenant_saas_gatewa.Webhooks
use multi_tenant_saas_gatewa.Webhooks.Delivery.{posted}
use multi_tenant_saas_gatewa.Webhooks.Retries.{deliver_bounded}
use multi_tenant_saas_gatewa.Http.Request.{Request}
use multi_tenant_saas_gatewa.Controllers.{Context, lift, piped, piped_cases, serve_cases}
use multi_tenant_saas_gatewa.Controllers.Webhooks.{
  Route, post, get_all, get_one, patch, deletion, rotation, test, one, updated, secret, delivered,
  nothing, success, dispatch,
}
use multi_tenant_saas_gatewa.Dto.{Validators, Fields, transform}
use multi_tenant_saas_gatewa.Dto.Tenants.{create_webhook_dto, update_webhook_dto, webhook_test_dto}
use multi_tenant_saas_gatewa.Dto.Webhooks.{
  Call, posts, gets_all, gets_one, patches, deletes, rotates, tests, route_of, on_ok, answer,
  handle, run,
}
use multi_tenant_saas_gatewa.Dto.Webhooks.Limits.{
  within, create_webhook_dto-within, update_webhook_dto-within, Limited, create-Limited,
  update-Limited, delete-Limited, rotate_secret-Limited, test_delivery-Limited, find_one-Limited,
}

ok_injective : {A : Type 0} (a b : A) → ok a ≡ ok b → a ≡ b
ok_injective a b e = cc

-- The bodies of the route keep the limit.
KeepsLimit : Route → Type 0
KeepsLimit (post dto random_bytes) = within (get_or dto.max_retries 3) ≡ true
KeepsLimit (patch id dto) = (n : ℕ) → dto.max_retries ≡ some n → within n ≡ true
KeepsLimit get_all = Unit
KeepsLimit (get_one id) = Unit
KeepsLimit (deletion id) = Unit
KeepsLimit (rotation id random_bytes) = Unit
KeepsLimit (test id event payload now) = Unit

default_within :
    (limit : Option ℕ)
    → ((n : ℕ) → limit ≡ some n → within n ≡ true)
    → within (get_or limit 3) ≡ true
default_within none h = refl
default_within (some n) h = h n refl

module _ (V : Validators) where
  posts-KeepsLimit :
      (o : Option CreateWebhookDto) (body : Fields) (random_bytes : String) (route : Route)
      → ((dto : CreateWebhookDto)
          → o ≡ some dto
          → (n : ℕ) → dto.max_retries ≡ some n
          → within n ≡ true)
      → on_ok (λ dto. post dto random_bytes) (transform V body o) ≡ ok route
      → KeepsLimit route
  unfolding KeepsLimit
  posts-KeepsLimit none body random_bytes route h e = absurd (ground (arith, e))
  posts-KeepsLimit (some dto) body random_bytes route h e =
      subst KeepsLimit (ok_injective _ route e) (default_within dto.max_retries (h dto refl))

  patches-KeepsLimit :
      (o : Option UpdateWebhookDto) (body : Fields) (id : String) (route : Route)
      → ((dto : UpdateWebhookDto)
          → o ≡ some dto
          → (n : ℕ) → dto.max_retries ≡ some n
          → within n ≡ true)
      → on_ok (λ dto. patch id dto) (transform V body o) ≡ ok route
      → KeepsLimit route
  unfolding KeepsLimit
  patches-KeepsLimit none body id route h e = absurd (ground (arith, e))
  patches-KeepsLimit (some dto) body id route h e =
      subst KeepsLimit (ok_injective _ route e) (h dto refl)

  tests-KeepsLimit :
      (o : Option WebhookEvent) (body : Fields) (id payload : String) (now : ℕ → ℕ) (route : Route)
      → on_ok (λ event. test id event payload now) (transform V body o) ≡ ok route
      → KeepsLimit route
  unfolding KeepsLimit
  tests-KeepsLimit none body id payload now route e = absurd (ground (arith, e))
  tests-KeepsLimit (some event) body id payload now route e =
      subst KeepsLimit (ok_injective _ route e) tt

  -- What the pipe lets through keeps the limit.
  route_of-KeepsLimit :
      (call : Call) (route : Route) → route_of V call ≡ ok route → KeepsLimit route
  unfolding route_of KeepsLimit
  route_of-KeepsLimit (posts body random_bytes) route e =
      posts-KeepsLimit (create_webhook_dto V body) body random_bytes route
        (create_webhook_dto-within V body).apply e
  route_of-KeepsLimit (patches id body) route e =
      patches-KeepsLimit (update_webhook_dto V body) body id route
        (update_webhook_dto-within V body).apply e
  route_of-KeepsLimit (tests id body payload now) route e =
      tests-KeepsLimit (webhook_test_dto V body) body id payload now route e
  route_of-KeepsLimit gets_all route e = subst KeepsLimit (ok_injective _ route e) tt
  route_of-KeepsLimit (gets_one id) route e = subst KeepsLimit (ok_injective _ route e) tt
  route_of-KeepsLimit (deletes id) route e = subst KeepsLimit (ok_injective _ route e) tt
  route_of-KeepsLimit (rotates id random_bytes) route e =
      subst KeepsLimit (ok_injective _ route e) tt

module _ (R : Repository Webhook) (L : IsLawful R) (net : Net) (c : Context) (V : Validators) where
  -- The answer is made from what a handler gave.
  replied-Limited :
      {A B : Type 0} (r : Result A × State R) (f : A → B)
      → Limited R L net r.1.table
      → Limited R L net (after r (λ a. pure (f a))).1.table
  replied-Limited (ok a, s) f h = h
  replied-Limited (throw e, s) f h = h

  piped-Limited :
      {A : Type 0} (id : String) (handler : String → M (State R) A) (s : State R)
      → Limited R L net s.table
      → Limited R L net (handler id s).1.table
      → Limited R L net (piped c id handler s).1.table
  piped-Limited id handler s h k = elim (piped_cases c id handler s) [
    | inl same ↦ rw same h
    | inr run_it ↦ rw run_it k
  ]

  dispatch-Limited :
      (user : AuthenticatedUser) (route : Route) (s : State R)
      → KeepsLimit route
      → Limited R L net s.table
      → Limited R L net (dispatch R net c user route s).1.table
  unfolding dispatch KeepsLimit Webhooks.find_all
  dispatch-Limited user (post dto random_bytes) s good h =
      replied-Limited (Webhooks.create R user.tenant_id dto random_bytes s) one
        (create-Limited R L net user.tenant_id s h dto random_bytes good)
  dispatch-Limited user get_all s good h = h
  dispatch-Limited user (get_one id) s good h =
      replied-Limited (piped c id (Webhooks.find_one R user.tenant_id) s) one (
        piped-Limited id (Webhooks.find_one R user.tenant_id) s h
          (find_one-Limited R L net user.tenant_id s h id))
  dispatch-Limited user (patch id dto) s good h =
      replied-Limited (piped c id (λ i. Webhooks.update R user.tenant_id i dto) s) updated (
        piped-Limited id (λ i. Webhooks.update R user.tenant_id i dto) s h
          (update-Limited R L net user.tenant_id s h id dto good))
  dispatch-Limited user (deletion id) s good h =
      replied-Limited (piped c id (Webhooks.delete R user.tenant_id) s) (λ _. nothing)
        (piped-Limited id (Webhooks.delete R user.tenant_id) s h
          (delete-Limited R L net user.tenant_id s h id))
  dispatch-Limited user (rotation id random_bytes) s good h =
      replied-Limited (piped c id (λ i. Webhooks.rotate_secret R user.tenant_id i random_bytes) s)
        secret
        (piped-Limited id (λ i. Webhooks.rotate_secret R user.tenant_id i random_bytes) s h
          (rotate_secret-Limited R L net user.tenant_id s h id random_bytes))
  dispatch-Limited user (test id event payload now) s good h =
      replied-Limited
        (piped c id (λ i. Webhooks.test_delivery R net user.tenant_id i event payload now) s)
        delivered
        (piped-Limited id (λ i. Webhooks.test_delivery R net user.tenant_id i event payload now) s h
          (test_delivery-Limited R L net user.tenant_id s h id event payload now))

  routed-Limited :
      (user : AuthenticatedUser) (r : Result Route) (s : State R)
      → ((route : Route) → r ≡ ok route → KeepsLimit route)
      → Limited R L net s.table
      → Limited R L net (after (r, s) (answer R net c V user)).1.table
  routed-Limited user (throw e) s good h = h
  routed-Limited user (ok route) s good h =
      replied-Limited (dispatch R net c user route s) (λ r. (success route, r))
        (dispatch-Limited user route s (good route refl) h)

  handle-Limited :
      (q : Request) (uuid : String) (timestamp : ℕ) (call : Call) (s : State R)
      → Limited R L net s.table
      → Limited R L net (handle R net c V q uuid timestamp call s).1.table
  unfolding handle
  handle-Limited q uuid timestamp call s h =
      elim (serve_cases c q uuid timestamp (λ p. lift (route_of V call) >>= answer R net c V p.1)
        s) [
          | inl same ↦ rw same h
          | inr (tenant_id, user, resolved, accepted, served) ↦
              rw served (routed-Limited user (route_of V call) s (route_of-KeepsLimit V call) h)
        ]

  run-Limited :
      (cs : List (Request × String × ℕ × Call)) (s : State R)
      → Limited R L net s.table
      → Limited R L net (run R net c V cs s).table
  unfolding run
  run-Limited [] s h = h
  run-Limited ((q, uuid, timestamp, call) ∷ cs) s h =
      run-Limited cs (handle R net c V q uuid timestamp call s).1
        (handle-Limited q uuid timestamp call s h)

  within-le : (n : ℕ) → within n ≡ true → (1 ≤ n) × (n ≤ 5)
  within-le n h = ground (arith, h)

  -- From a table in which every webhook has a limit of 1 to 5 attempts, such as the empty one, after
  -- any history of requests to the webhook controller, with any bodies: every webhook still has such a
  -- limit, and a delivery to it sends at most five requests, all of them the same, and nothing else.
  pub run-deliver_bounded :
      (cs : List (Request × String × ℕ × Call)) (s : State R)
      → ((i : String) (w : Entity Webhook)
          → L.row s.table i ≡ some w
          → (1 ≤ w.own.max_retries) × (w.own.max_retries ≤ 5))
      → (i : String) (w : Entity Webhook) → L.row (run R net c V cs s).table i ≡ some w
      → (event : WebhookEvent) (payload : String) (now : ℕ → ℕ) (t : State R)
      → (1 ≤ w.own.max_retries)
        × (w.own.max_retries ≤ 5)
        × ((n : ℕ) × (n ≤ 5)
            × ((deliver R net w event payload now t).1.sent
                ≡ posted n (request R net w event payload (now 0)) t.sent))
  run-deliver_bounded cs s h i w row event payload now t =
      let kept =
        within-le w.own.max_retries
          (run-Limited cs s (λ j u at. ground (arith, h j u at)) i w row) in
      let (n, few, sent) = deliver_bounded R net w event payload now t in
      (kept.0, kept.1, (n, omega (arith, few, kept.1), sent))
