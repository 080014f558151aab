-- ===== src/Controllers/ApiKeys.antt =====
-- src/modules/api-keys/api-keys.controller.ts. No handler reads the tenant of the middleware.
use multi_tenant_saas_gatewa.Common.{
  ℕ, String, ◌≡◌, ◌≢◌, ◌↔◌, refl, ap, ◌∙◌, ◌⊎◌, inl, inr, some, List,
}
use multi_tenant_saas_gatewa.Common.Outcome.{ok, M, pure, ◌>>=◌}
use multi_tenant_saas_gatewa.Database.{Entity, Repository, IsLawful}
use multi_tenant_saas_gatewa.Auth.{AuthenticatedUser}
use multi_tenant_saas_gatewa.ApiKeys.{
  ApiKey, Config, CreateApiKeyDto, UpdateApiKeyDto, ApiKeyResponseDto,
}
use multi_tenant_saas_gatewa.ApiKeys
use multi_tenant_saas_gatewa.ApiKeys.Steps.{
  Call, creates, finds_all, finds_one, updates, revokes, deletes, rotates, perform, scope,
}
use multi_tenant_saas_gatewa.ApiKeys.Tenancy.{perform_isolated}
use multi_tenant_saas_gatewa.Http.Request.{Request}
use multi_tenant_saas_gatewa.Http.Filter.{Response}
use multi_tenant_saas_gatewa.Http.Guards.{jwt_guard}
use multi_tenant_saas_gatewa.Controllers.{
  Context, piped, admit, serve, serve_cases, reply_state, piped_state,
}

-- The routes, with the parameter `id`, the body, and the random texts that the service draws.
pub data Route : Type 0 where
  post : CreateApiKeyDto → String → String → Route
  get_all : Route
  get_one : String → Route
  patch : String → UpdateApiKeyDto → Route
  rotation : String → String → String → Route
  revocation : String → Route
  deletion : String → Route

pub data Reply : Type 0 where
  one : ApiKeyResponseDto → Reply
  many : List ApiKeyResponseDto → Reply
  nothing : Reply

-- The status of an answer: `@HttpCode`, or what Nest gives the method.
abbrev pub success : Route → ℕ
success (post dto key_hex secret_hex) = 201
success get_all = 200
success (get_one id) = 200
success (patch id dto) = 200
success (rotation id key_hex secret_hex) = 201
success (revocation id) = 204
success (deletion id) = 204

module _ (hmac : String → String → String) (R : Repository ApiKey) (cfg : Config)
    (c : Context) where
  -- The seven handlers.
  unfoldable pub create :
      AuthenticatedUser → CreateApiKeyDto → String → String → M R.Table ApiKeyResponseDto
  create user dto key_hex secret_hex =
      ApiKeys.create hmac R cfg user.tenant_id dto key_hex secret_hex

  unfoldable pub find_all : AuthenticatedUser → M R.Table (List ApiKeyResponseDto)
  find_all user = ApiKeys.find_all hmac R cfg user.tenant_id

  unfoldable pub find_one : AuthenticatedUser → String → M R.Table ApiKeyResponseDto
  find_one user id = piped c id (λ id. ApiKeys.find_one hmac R cfg user.tenant_id id)

  unfoldable pub update : AuthenticatedUser → String → UpdateApiKeyDto → M R.Table ApiKeyResponseDto
  update user id dto = piped c id (λ id. ApiKeys.update hmac R cfg user.tenant_id id dto)

  unfoldable pub rotate : AuthenticatedUser → String → String → String → M R.Table ApiKeyResponseDto
  rotate user id key_hex secret_hex =
      piped c id (λ id. ApiKeys.rotate hmac R cfg user.tenant_id id key_hex secret_hex)

  unfoldable pub revoke : AuthenticatedUser → String → M R.Table (Unit {0})
  revoke user id = piped c id (λ id. ApiKeys.revoke hmac R cfg user.tenant_id id)

  unfoldable pub delete : AuthenticatedUser → String → M R.Table (Unit {0})
  delete user id = piped c id (λ id. ApiKeys.delete hmac R cfg user.tenant_id id)

  unfoldable pub dispatch : AuthenticatedUser → Route → M R.Table Reply
  unfolding create find_all find_one update rotate revoke delete
  dispatch user (post dto key_hex secret_hex) =
      create user dto key_hex secret_hex >>= λ d. pure (one d)
  dispatch user get_all = find_all user >>= λ ds. pure (many ds)
  dispatch user (get_one id) = find_one user id >>= λ d. pure (one d)
  dispatch user (patch id dto) = update user id dto >>= λ d. pure (one d)
  dispatch user (rotation id key_hex secret_hex) =
      rotate user id key_hex secret_hex >>= λ d. pure (one d)
  dispatch user (revocation id) = revoke user id >>= λ _. pure nothing
  dispatch user (deletion id) = delete user id >>= λ _. pure nothing

  -- A request to the controller: the status and the body of the answer, and the table.
  unfoldable pub handle : Request → String → ℕ → Route → R.Table → Response (ℕ × Reply) × R.Table
  unfolding dispatch
  handle q uuid timestamp route =
      serve q uuid timestamp (admit c q) (λ p. dispatch p.1 route >>= λ r. pure (success route, r))

-- The call of the service that a route makes.
abbrev call_of : AuthenticatedUser → Route → Call
call_of user (post dto key_hex secret_hex) = creates user.tenant_id dto key_hex secret_hex
call_of user get_all = finds_all user.tenant_id
call_of user (get_one id) = finds_one user.tenant_id id
call_of user (patch id dto) = updates user.tenant_id id dto
call_of user (rotation id key_hex secret_hex) = rotates user.tenant_id id key_hex secret_hex
call_of user (revocation id) = revokes user.tenant_id id
call_of user (deletion id) = deletes user.tenant_id id

module _ (hmac : String → String → String) (R : Repository ApiKey) (L : IsLawful R) (cfg : Config)
    (c : Context) where
  dispatch_state :
      (user : AuthenticatedUser) (route : Route) (t : R.Table)
      → ((dispatch hmac R cfg c user route t).1 ≡ t)
        ⊎ ((dispatch hmac R cfg c user route t).1 ≡ perform hmac R L cfg (call_of user route) t)
  unfolding dispatch create find_all find_one update rotate revoke delete perform
  dispatch_state user (post dto key_hex secret_hex) t =
      inr (reply_state (ApiKeys.create hmac R cfg user.tenant_id dto key_hex secret_hex) one t)
  dispatch_state user get_all t =
      inr (reply_state (ApiKeys.find_all hmac R cfg user.tenant_id) many t)
  dispatch_state user (get_one id) t =
      piped_state c id (ApiKeys.find_one hmac R cfg user.tenant_id) one t
  dispatch_state user (patch id dto) t =
      piped_state c id (λ id. ApiKeys.update hmac R cfg user.tenant_id id dto) one t
  dispatch_state user (rotation id key_hex secret_hex) t =
      piped_state c id (λ id. ApiKeys.rotate hmac R cfg user.tenant_id id key_hex secret_hex) one t
  dispatch_state user (revocation id) t =
      piped_state c id (ApiKeys.revoke hmac R cfg user.tenant_id) (λ _. nothing) t
  dispatch_state user (deletion id) t =
      piped_state c id (ApiKeys.delete hmac R cfg user.tenant_id) (λ _. nothing) t

  call_of-scope :
      (user : AuthenticatedUser) (route : Route) (t : R.Table)
      → scope hmac R L cfg (call_of user route) t ≡ user.tenant_id
  unfolding scope
  call_of-scope user (post dto key_hex secret_hex) t = refl
  call_of-scope user get_all t = refl
  call_of-scope user (get_one id) t = refl
  call_of-scope user (patch id dto) t = refl
  call_of-scope user (rotation id key_hex secret_hex) t = refl
  call_of-scope user (revocation id) t = refl
  call_of-scope user (deletion id) t = refl

  -- No request changes the API keys of a tenant that is not the tenant of an accepted token: such a
  -- row is there before the request exactly when it is there after it. So a request without an
  -- accepted token changes nothing.
  pub handle_isolated :
      (q : Request) (uuid : String) (timestamp : ℕ) (route : Route) (t : R.Table) (i : String)
      (e : Entity ApiKey)
      → ((u : AuthenticatedUser)
          → jwt_guard c.jwt c.secret q ≡ ok u
          → e.own.tenant_id ≢ u.tenant_id)
      → (L.row t i ≡ some e) ↔ (L.row (handle hmac R cfg c q uuid timestamp route t).1 i ≡ some e)
  unfolding handle
  handle_isolated q uuid timestamp route t i e other =
      elim (serve_cases c q uuid timestamp
        (λ p. dispatch hmac R cfg c p.1 route >>= λ r. pure (answer r)) t) [
          | inl same ↦ rw same (λ h. h, λ h. h)
          | inr (tenant_id, u, resolved, accepted, run) ↦
              let final : (handle hmac R cfg c q uuid timestamp route t).1
                  ≡ (dispatch hmac R cfg c u route t).1 =
                ap (λ r. r.1) run ∙ reply_state (dispatch hmac R cfg c u route) answer t in
              elim (dispatch_state u route t) [
                | inl same ↦ rw (final ∙ same) (λ h. h, λ h. h)
                | inr called ↦ rw (final ∙ called) (
                    perform_isolated hmac R L cfg (call_of u route) t i e
                      (rw (call_of-scope u route t) (other u accepted)))
              ]
        ]
    where
      answer : Reply → ℕ × Reply
      answer r = (success route, r)
