-- ===== src/Controllers/Users/Tenancy.antt =====
-- Which users a request to the user controller may change.
use multi_tenant_saas_gatewa.Common.{
  ℕ, String, ◌≡◌, ◌≢◌, ◌↔◌, refl, ap, ◌∙◌, sym, ◌⊎◌, inl, inr, Bool, Bool-cases, ◌==◌, some,
}
use multi_tenant_saas_gatewa.Common.Outcome.{ok, M, pure, ◌>>=◌, Exception}
use multi_tenant_saas_gatewa.Database.{Entity, Repository, IsLawful}
use multi_tenant_saas_gatewa.Entities.{User, UserResponseDto}
use multi_tenant_saas_gatewa.Redis.{IsLawfulCache}
use multi_tenant_saas_gatewa.Gateway.{Gateway, State}
use multi_tenant_saas_gatewa.Audit.Transparent.{intercept_inner}
use multi_tenant_saas_gatewa.Audit.{AuditLog, Audited}
use multi_tenant_saas_gatewa.Users.{CreateUserPayload, UpdateUserPayload}
use multi_tenant_saas_gatewa.Users
use multi_tenant_saas_gatewa.Users.Steps.{
  Call, creates, finds_by_id, finds_all, updates, deletes, caller, perform,
}
use multi_tenant_saas_gatewa.Users.Table.{perform_isolated_users}
use multi_tenant_saas_gatewa.Http.Request.{Request}
use multi_tenant_saas_gatewa.Http.Middleware.{resolve_tenant}
use multi_tenant_saas_gatewa.Http.Pagination.{PaginatedResponseDto, paginated}
use multi_tenant_saas_gatewa.Controllers.{Context, piped, serve_cases, reply_state, piped_state}
use multi_tenant_saas_gatewa.Controllers.Users.{
  Route, post, get_all, get_one, put, deletion, one, page, nothing, success, audit_of,
  get_tenant_id, create, find_all, find_by_id, update, delete, dispatch, audited, handle,
}

-- The call of the service that a route makes.
abbrev call_of : (String → String → Bool) → String → Route → Call
call_of ilike T (post payload salt now) = creates T payload salt now
call_of ilike T (get_all pages filter) =
    finds_all ilike T pages.page pages.limit filter.q filter.status
call_of ilike T (get_one id) = finds_by_id T id
call_of ilike T (put id payload now) = updates T id payload now
call_of ilike T (deletion id deleted_at now) = deletes T id deleted_at now

call_of-caller :
    (ilike : String → String → Bool) (T : String) (route : Route)
    → caller (call_of ilike T route) ≡ T
call_of-caller ilike T (post payload salt now) = refl
call_of-caller ilike T (get_all pages filter) = refl
call_of-caller ilike T (get_one id) = refl
call_of-caller ilike T (put id payload now) = refl
call_of-caller ilike T (deletion id deleted_at now) = refl

module _ (g : Gateway) (U : IsLawful g.users) (C : IsLawfulCache g.cache) (ttl : ℕ)
    (ilike : String → String → Bool) (c : Context) where
  with_tenant :
      {A : Type 0} (attached : String) (m : String → M (State g) A) (s : State g)
      → (((get_tenant_id g ttl ilike c attached >>= m) s).1 ≡ s)
        ⊎ (((get_tenant_id g ttl ilike c attached >>= m) s).1 ≡ (m attached s).1)
  unfolding get_tenant_id
  with_tenant attached m s = elim (Bool-cases (attached == "")) [
    | inl empty ↦ inl (rw empty refl)
    | inr given ↦ inr (rw given refl)
  ]

  replies :
      {A B : Type 0} (attached : String) (m : String → M (State g) A) (k : A → B) (s : State g)
      → ((((get_tenant_id g ttl ilike c attached >>= m) >>= λ a. pure (k a)) s).1 ≡ s)
        ⊎ ((((get_tenant_id g ttl ilike c attached >>= m) >>= λ a. pure (k a)) s).1
            ≡ (m attached s).1)
  replies attached m k s = elim (with_tenant attached m s) [
    | inl same ↦ inl (reply_state (get_tenant_id g ttl ilike c attached >>= m) k s ∙ same)
    | inr run ↦ inr (reply_state (get_tenant_id g ttl ilike c attached >>= m) k s ∙ run)
  ]

  piped_replies :
      {A B : Type 0} (attached id : String) (m : String → String → M (State g) A) (k : A → B)
      (s : State g)
      → (((piped c id (λ i. get_tenant_id g ttl ilike c attached >>= λ T. m T i) >>= λ a.
              pure (k a))
            s).1
          ≡ s)
        ⊎ (((piped c id (λ i. get_tenant_id g ttl ilike c attached >>= λ T. m T i) >>= λ a.
                pure (k a))
              s).1
            ≡ (m attached id s).1)
  piped_replies attached id m k s =
      elim (piped_state c id (λ i. get_tenant_id g ttl ilike c attached >>= λ T. m T i) k s) [
        | inl same ↦ inl same
        | inr run ↦ elim (with_tenant attached (λ T. m T id) s) [
          | inl same ↦ inl (run ∙ same)
          | inr more ↦ inr (run ∙ more)
        ]
      ]

  dispatch_state :
      (attached : String) (route : Route) (s : State g)
      → ((dispatch g ttl ilike c attached route s).1 ≡ s)
        ⊎ ((dispatch g ttl ilike c attached route s).1
            ≡ perform g U C ttl (call_of ilike attached route) s)
  unfolding dispatch create find_all find_by_id update delete perform
  dispatch_state attached (post payload salt now) s =
      replies attached (λ T. Users.create g ttl T payload salt now) one s
  dispatch_state attached (get_all pages filter) s = elim (replies attached listed page s) [
    | inl same ↦ inl same
    | inr run ↦ inr (
        run
        ∙ reply_state
            (Users.find_all_by_tenant g ttl ilike attached pages.page pages.limit filter.q
              filter.status)
            (λ found. paginated found.0 found.1 pages.page pages.limit) s)
  ]
    where
      listed : String → M (State g) (PaginatedResponseDto UserResponseDto)
      listed T =
          Users.find_all_by_tenant g ttl ilike T pages.page pages.limit filter.q filter.status
          >>= λ found. pure (paginated found.0 found.1 pages.page pages.limit)
  dispatch_state attached (get_one id) s =
      piped_replies attached id (λ T i. Users.find_by_id g ttl T i) one s
  dispatch_state attached (put id payload now) s =
      piped_replies attached id (λ T i. Users.update g ttl T i payload now) one s
  dispatch_state attached (deletion id deleted_at now) s =
      piped_replies attached id (λ T i. Users.delete g ttl T i deleted_at now) (λ _. nothing) s

  -- No request changes the users of a tenant that is not the tenant of the request: such a row is there
  -- before it exactly when it is there after it.
  pub handle_isolated_users :
      (A : Repository AuditLog) (driver : Exception → String) (q : Request) (uuid : String)
      (timestamp : ℕ) (route : Route) (s : Audited A (State g)) (i : String) (e : Entity User)
      → resolve_tenant q ≢ ok e.own.tenant_id
      → (U.row s.inner.users i ≡ some e)
        ↔ (U.row (handle g ttl ilike c A driver q uuid timestamp route s).1.inner.users i ≡ some e)
  unfolding handle audited
  handle_isolated_users A driver q uuid timestamp route s i e other =
      elim (serve_cases c q uuid timestamp (λ p. audited g ttl ilike c A driver q route p.0 p.1)
        s) [
          | inl same ↦ rw same (λ h. h, λ h. h)
          | inr (attached, u, resolved, accepted, run) ↦
              let inner : (handle g ttl ilike c A driver q uuid timestamp route s).1.inner
                  ≡ (dispatch g ttl ilike c attached route s.inner).1 =
                ap (λ r. r.1.inner) run
                ∙ (intercept_inner A driver (audit_of route) q (some u)
                    (dispatch g ttl ilike c attached route >>= λ r. pure (success route, r)) s).1
                ∙ reply_state (dispatch g ttl ilike c attached route) (λ r. (success route, r))
                    s.inner in
              elim (dispatch_state attached route s.inner) [
                | inl same ↦ rw (inner ∙ same) (λ h. h, λ h. h)
                | inr called ↦ rw (inner ∙ called) (
                    perform_isolated_users g U C ttl (call_of ilike attached route) s.inner i e
                      (λ h.
                        other (resolved ∙ ap ok (sym (h ∙ call_of-caller ilike attached route)))))
              ]
        ]
