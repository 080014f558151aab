-- ===== src/Controllers.antt =====
-- What a request passes on its way to a handler and back, in the order of Nest: `TenantMiddleware`
-- (applied to all routes of these controllers by src/app.module.ts), `JwtGuard`, `LoggingInterceptor`, the
-- handler with
-- `ParseUUIDPipe` on its ids, and `AllExceptionsFilter`.
pub mod ApiKeys
pub mod Users
pub mod Auth
pub mod Tenants
pub mod Rbac
pub mod Webhooks
pub mod Profile
pub mod AuditLogs
mod Logging
mod Tests
use multi_tenant_saas_gatewa.Common.{ℕ, String, ◌≡◌, refl, ap, ◌∙◌, ◌⊎◌, inl, inr, Bool, arith}
use multi_tenant_saas_gatewa.Common.Outcome.{Result, ok, throw, M, after, pure, ◌>>=◌}
use multi_tenant_saas_gatewa.Database.Laws.{Result-cases}
use multi_tenant_saas_gatewa.Auth.{AuthenticatedUser, Jwt}
use multi_tenant_saas_gatewa.Http.Request.{Request}
use multi_tenant_saas_gatewa.Http.Middleware.{resolve_tenant, with_request_id}
use multi_tenant_saas_gatewa.Http.Guards.{jwt_guard, parse_uuid}
use multi_tenant_saas_gatewa.Http.Filter.{Response, answered, failed, respond, build_error_response}

-- What the pipeline is configured with: the tokens, `JWT_SECRET`, and the test on ids.
pub record Context : Type 0 where
  pub jwt : Jwt
  pub secret : String
  pub is_uuid : String → Bool

module _ {S : Type 0} where
  abbrev pub lift : {A : Type 0} → Result A → M S A
  lift r s = (r, s)

  -- A handler with `ParseUUIDPipe` on its parameter.
  unfoldable pub piped : {A : Type 0} → Context → String → (String → M S A) → M S A
  piped c id handler = lift (parse_uuid c.is_uuid id) >>= handler

  -- `TenantMiddleware` and `JwtGuard`: the tenant of the request, and the user of the token.
  unfoldable pub admit : Context → Request → M S (String × AuthenticatedUser)
  admit c q = do
    tenant_id ← lift (resolve_tenant q)
    u ← lift (jwt_guard c.jwt c.secret q)
    pure (tenant_id, u)

  -- A route that no guard protects.
  unfoldable pub admit_public : Request → M S String
  admit_public q = lift (resolve_tenant q)

  -- What follows the guards. `LoggingInterceptor` gives the request an id, which the filter reads.
  abbrev pub proceed :
      {G A : Type 0} → Request → String → ℕ → Result G × S → (G → M S A) → Response A × S
  proceed q uuid timestamp (throw e, s) handler = (failed (build_error_response e q timestamp), s)
  proceed q uuid timestamp (ok admitted, s) handler =
      (respond (with_request_id q uuid) timestamp (handler admitted s).0, (handler admitted s).1)

  -- The answer, and the state that is left.
  unfoldable pub serve :
      {G A : Type 0} → Request → String → ℕ → M S G → (G → M S A) → S → Response A × S
  serve q uuid timestamp guards handler s = proceed q uuid timestamp (guards s) handler

  -- A request leaves the state alone, or its handler runs, with the tenant of the request and the user
  -- of its token.
  pub serve_cases :
      {A : Type 0} (c : Context) (q : Request) (uuid : String) (timestamp : ℕ)
      (handler : String × AuthenticatedUser → M S A) (s : S)
      → ((serve q uuid timestamp (admit c q) handler s).1 ≡ s)
        ⊎ ((tenant_id : String) × (u : AuthenticatedUser) × (resolve_tenant q ≡ ok tenant_id)
            × (jwt_guard c.jwt c.secret q ≡ ok u)
            × (serve q uuid timestamp (admit c q) handler s ≡ (
              respond (with_request_id q uuid) timestamp (handler (tenant_id, u) s).0,
              (handler (tenant_id, u) s).1,
            )))
  unfolding serve admit
  serve_cases c q uuid timestamp handler s = elim (Result-cases (resolve_tenant q)) [
    | inl (e, refused) ↦ inl (rw refused refl)
    | inr (tenant_id, resolved) ↦ elim (Result-cases (jwt_guard c.jwt c.secret q)) [
      | inl (e, refused) ↦ inl (rw (resolved, refused) refl)
      | inr (u, accepted) ↦ inr (tenant_id, u, resolved, accepted, rw (resolved, accepted) refl)
    ]
  ]

  pub piped_cases :
      {A : Type 0} (c : Context) (id : String) (handler : String → M S A) (s : S)
      → ((piped c id handler s).1 ≡ s) ⊎ (piped c id handler s ≡ handler id s)
  unfolding piped parse_uuid
  piped_cases c id handler s = ground arith

  after_state : {A B : Type 0} (k : A → B) (r : Result A × S) → (after r (λ a. pure (k a))).1 ≡ r.1
  after_state k (ok a, s) = refl
  after_state k (throw e, s) = refl

  -- What is done with the answer of a handler does not change the state.
  pub reply_state :
      {A B : Type 0} (m : M S A) (k : A → B) (s : S) → ((m >>= λ a. pure (k a)) s).1 ≡ (m s).1
  reply_state m k s = after_state k (m s)

  pub piped_state :
      {A B : Type 0} (c : Context) (id : String) (m : String → M S A) (k : A → B) (s : S)
      → (((piped c id m >>= λ a. pure (k a)) s).1 ≡ s)
        ⊎ (((piped c id m >>= λ a. pure (k a)) s).1 ≡ (m id s).1)
  piped_state c id m k s = elim (piped_cases c id m s) [
    | inl same ↦ inl (reply_state (piped c id m) k s ∙ same)
    | inr run ↦ inr (reply_state (piped c id m) k s ∙ ap (λ r. r.1) run)
  ]

  respond_answered :
      {A : Type 0} (q : Request) (timestamp : ℕ) (r : Result A × S) (s' : S) (a : A)
      → ◌≡◌ {A = Response A × S} (respond q timestamp r.0, r.1) (answered a, s')
      → r ≡ (ok a, s')
  unfolding respond
  respond_answered q timestamp (ok b, t) s' a h = cc
  respond_answered q timestamp (throw e, t) s' a h = absurd (ground arith)

  proceed_answered :
      {G A : Type 0} (q : Request) (uuid : String) (timestamp : ℕ) (r : Result G × S)
      (handler : G → M S A) (s' : S) (a : A)
      → proceed q uuid timestamp r handler ≡ (answered a, s')
      → (admitted : G) × (t : S) × (r ≡ (ok admitted, t)) × (handler admitted t ≡ (ok a, s'))
  proceed_answered q uuid timestamp (throw e, t) handler s' a h = absurd (ground arith)
  proceed_answered q uuid timestamp (ok admitted, t) handler s' a h = (
    admitted,
    t,
    refl,
    respond_answered (with_request_id q uuid) timestamp (handler admitted t) s' a h,
  )

  -- A request that is answered has passed the guards.
  pub serve_answered :
      {G A : Type 0} (q : Request) (uuid : String) (timestamp : ℕ) (guards : M S G)
      (handler : G → M S A) (s s' : S) (a : A)
      → serve q uuid timestamp guards handler s ≡ (answered a, s')
      → (admitted : G) × (t : S) × (guards s ≡ (ok admitted, t)) × (handler admitted t ≡ (ok a, s'))
  unfolding serve
  serve_answered q uuid timestamp guards handler s s' a h =
      proceed_answered q uuid timestamp (guards s) handler s' a h

  -- What is answered after a first step.
  pub after_answered :
      {A B : Type 0} (r : Result A × S) (k : A → M S B) (b : B) (s' : S)
      → after r k ≡ (ok b, s')
      → (a : A) × (t : S) × (r ≡ (ok a, t)) × (k a t ≡ (ok b, s'))
  after_answered (ok a, t) k b s' h = (a, t, refl, h)
  after_answered (throw e, t) k b s' h = absurd (ground arith)

  -- Guards that admit a request have found its tenant and its user, and left the state alone.
  pub admit_ok :
      (c : Context) (q : Request) (s t : S) (p : String × AuthenticatedUser)
      → admit c q s ≡ (ok p, t)
      → (t ≡ s) × (resolve_tenant q ≡ ok (p.0)) × (jwt_guard c.jwt c.secret q ≡ ok (p.1))
  unfolding admit
  admit_ok c q s t p h = elim (Result-cases (resolve_tenant q)) [
    | inl (e, refused) ↦ absurd (ground (arith, h, refused))
    | inr (tenant_id, resolved) ↦ elim (Result-cases (jwt_guard c.jwt c.secret q)) [
      | inl (e, refused) ↦ absurd (ground (arith, h, resolved, refused))
      | inr (u, accepted) ↦ (
        ground (arith, h, resolved, accepted),
        ground (arith, h, resolved, accepted),
        ground (arith, h, resolved, accepted),
      )
    ]
  ]
