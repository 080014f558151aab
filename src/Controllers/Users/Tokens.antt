-- ===== src/Controllers/Users/Tokens.antt =====
-- What the user controller makes of the token.
use multi_tenant_saas_gatewa.Common.{ℕ, String, ◌≡◌, refl, ap, ◌∙◌, sym, inl, inr, Bool, some}
use multi_tenant_saas_gatewa.Common.Outcome.{ok, pure, ◌>>=◌, Exception}
use multi_tenant_saas_gatewa.Database.{Repository}
use multi_tenant_saas_gatewa.Database.Laws.{Result-cases}
use multi_tenant_saas_gatewa.Gateway.{Gateway, State}
use multi_tenant_saas_gatewa.Auth.{AuthenticatedUser, JwtPayload}
use multi_tenant_saas_gatewa.Audit.Transparent.{intercept_inner}
use multi_tenant_saas_gatewa.Audit.{AuditLog, Audited}
use multi_tenant_saas_gatewa.Http.Request.{Request}
use multi_tenant_saas_gatewa.Http.Filter.{Response, respond, build_error_response}
use multi_tenant_saas_gatewa.Http.Middleware.{with_request_id, resolve_tenant, extract_subdomain}
use multi_tenant_saas_gatewa.Http.Guards.{jwt_guard, validate_payload}
use multi_tenant_saas_gatewa.Controllers.{Context, admit, admit_public, serve}
use multi_tenant_saas_gatewa.Controllers.Users.{
  Reply, Route, Reply, success, audit_of, dispatch, audited, handle,
}

module _ (g : Gateway) (ttl : ℕ) (ilike : String → String → Bool) (c : Context) where
  -- What a request does without the guard and without the audit.
  unguarded : Request → String → ℕ → Route → State g → Response (ℕ × Reply) × State g
  unguarded q uuid timestamp route =
      serve q uuid timestamp (admit_public q)
        (λ attached. dispatch g ttl ilike c attached route >>= λ r. pure (success route, r))

  module _ (A : Repository AuditLog) (driver : Exception → String) (uuid : String) (timestamp : ℕ)
      (route : Route) where
    handle-unguarded :
        (q : Request) (s : Audited A (State g)) (u : AuthenticatedUser)
        → jwt_guard c.jwt c.secret q ≡ ok u
        → ((handle g ttl ilike c A driver q uuid timestamp route s).0
            ≡ (unguarded q uuid timestamp route s.inner).0)
          × ((handle g ttl ilike c A driver q uuid timestamp route s).1.inner
              ≡ (unguarded q uuid timestamp route s.inner).1)
    unfolding handle serve admit admit_public unguarded audited
    handle-unguarded q s u accepted = elim (Result-cases (resolve_tenant q)) [
      | inl (e, refused) ↦ rw refused (refl, refl)
      | inr (attached, resolved) ↦
          let inner =
            intercept_inner A driver (audit_of route) q (some u)
              (dispatch g ttl ilike c attached route >>= λ r. pure (success route, r)) s in
          rw (resolved, accepted) (ap (respond (with_request_id q uuid) timestamp) inner.0, inner.1)
    ]

    -- Of two requests that differ in their token alone, and whose tokens are both accepted, the
    -- answer is the same and so is the state apart from the audit log, whoever the users of the
    -- tokens are and whatever their tenants.
    pub handle_ignores_token :
        (q : Request) (s : Audited A (State g)) (mine other : String) (p p' : JwtPayload)
        → c.jwt.verify mine c.secret ≡ ok p
        → c.jwt.verify other c.secret ≡ ok p'
        → let r =
            handle g ttl ilike c A driver
              (record q { bearer_token = some mine })
              uuid
              timestamp
              route
              s in
          let r' =
            handle g ttl ilike c A driver
              (record q { bearer_token = some other })
              uuid
              timestamp
              route
              s in
          (r.0 ≡ r'.0) × (r.1.inner ≡ r'.1.inner)
    unfolding unguarded serve admit_public jwt_guard resolve_tenant extract_subdomain respond
        build_error_response
    handle_ignores_token q s mine other p p' accepted accepted' =
        let one_side =
          handle-unguarded (record q { bearer_token = some mine }) s (validate_payload p)
            (rw (jwt_guard, accepted) refl) in
        let other_side =
          handle-unguarded (record q { bearer_token = some other }) s (validate_payload p')
            (rw (jwt_guard, accepted') refl) in
        (one_side.0 ∙ sym other_side.0, one_side.1 ∙ sym other_side.1)
