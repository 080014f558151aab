-- ===== src/Controllers/Auth/Session.antt =====
-- A login, and the requests that carry its token.
use multi_tenant_saas_gatewa.Common.{ℕ, String, ◌≡◌, refl, ap, ◌∙◌, some, truthy, true, arith}
use multi_tenant_saas_gatewa.Common.Outcome.{ok, pure, ◌>>=◌}
use multi_tenant_saas_gatewa.Database.{Entity, IsLawful}
use multi_tenant_saas_gatewa.Entities.{User}
use multi_tenant_saas_gatewa.Gateway.{Gateway, State}
use multi_tenant_saas_gatewa.Auth.{
  AuthenticatedUser, LoginDto, TokenConfig, TokenResponseDto, generate,
}
use multi_tenant_saas_gatewa.Auth
use multi_tenant_saas_gatewa.Auth.Login.{login_sound}
use multi_tenant_saas_gatewa.Http.Request.{Request}
use multi_tenant_saas_gatewa.Http.Filter.{answered, respond}
use multi_tenant_saas_gatewa.Http.Middleware.{resolve_tenant}
use multi_tenant_saas_gatewa.Http.Guards.{jwt_guard, IsLawfulJwt, generate-jwt_guard}
use multi_tenant_saas_gatewa.Controllers.{
  Context, lift, admit, admit_public, serve, serve_answered, after_answered,
}
use multi_tenant_saas_gatewa.Controllers.Auth.{
  login, log_in, me, tokens, current, handle, get_current_user,
}

module _ (g : Gateway) (U : IsLawful g.users) (cfg : TokenConfig) (sha256 : String → String)
    (c : Context) where
  -- What a login that is answered has done.
  login_inversion :
      (dto : LoginDto) (now timestamp : ℕ) (uuid : String) (q : Request) (s s' : State g)
      (r : TokenResponseDto)
      → handle g cfg sha256 c q uuid timestamp (log_in dto now) s ≡ (answered (201, tokens r), s')
      → (u : Entity User) × (Auth.login g dto now s ≡ (ok u, s')) × (generate c.jwt cfg u ≡ ok r)
  unfolding handle admit_public login
  login_inversion dto now timestamp uuid q s s' r h =
      let (t, s₁, resolved, run₁) =
        serve_answered q uuid timestamp (admit_public q)
          (λ _. login g cfg sha256 c dto now >>= λ r. pure (201, tokens r)) s s' (201, tokens r)
          h in
      let (d, s₂, logged, last) =
        after_answered (login g cfg sha256 c dto now s₁) (λ r. pure (201, tokens r)) (201, tokens r)
          s' run₁ in
      let (u, s₃, found, made) =
        after_answered (Auth.login g dto now s₁) (λ u. lift (generate c.jwt cfg u)) d s₂ logged in
      (u, ground (arith, resolved, found, made, last), ground (arith, made, last))

  -- Where the configured secret is not empty and is the one of the guard, and a signed token verifies
  -- with its secret: a login that is answered at the endpoint gives a token that the endpoint for the
  -- current user accepts in every request that has a tenant; it answers with the given email and
  -- tenant, and the id of a stored user of that tenant and email that the password fits.
  pub login-me :
      (law : IsLawfulJwt c.jwt) (dto : LoginDto) (now timestamp : ℕ) (uuid : String)
      (q q' : Request) (s s' : State g) (r : TokenResponseDto) (tenant_id : String)
      → truthy cfg.jwt_secret ≡ some c.secret
      → handle g cfg sha256 c q uuid timestamp (log_in dto now) s ≡ (answered (201, tokens r), s')
      → q'.bearer_token ≡ some r.access_token
      → resolve_tenant q' ≡ ok tenant_id
      → (old : Entity User) × (U.row s.users old.id ≡ some old)
        × (old.own.tenant_id ≡ dto.tenant_id)
        × (old.own.email ≡ dto.email)
        × (g.bcrypt.compare dto.password old.own.password_hash ≡ true)
        × (handle g cfg sha256 c q' uuid timestamp me s' ≡ (
          answered (
            200,
            current (record { user_id = old.id; email = dto.email; tenant_id = dto.tenant_id }),
          ),
          s',
        ))
  unfolding handle serve respond admit get_current_user
  login-me law dto now timestamp uuid q q' s s' r tenant_id configured h carried resolved =
      let (u, logged, made) = login_inversion dto now timestamp uuid q s s' r h in
      let (old, row, tenant, email, fits, allowed, own, rows, rest) =
        login_sound g U dto now s s' u logged in
      let accepted : jwt_guard c.jwt c.secret q'
          ≡ ok (record { user_id = u.id; email = u.own.email; tenant_id = u.own.tenant_id }) =
        generate-jwt_guard c.jwt law cfg c.secret u r q' configured made carried in
      let same_id : u.id ≡ old.id = U.row_id s'.users old.id u (ground (arith, rows old.id)) in
      let user : AuthenticatedUser = record {
        user_id = u.id;
        email = u.own.email;
        tenant_id = u.own.tenant_id;
      } in
      let answers : handle g cfg sha256 c q' uuid timestamp me s'
          ≡ (answered (200, current user), s') =
        rw (resolved, accepted) refl in
      let known : user ≡ record { user_id = old.id; email = dto.email; tenant_id = dto.tenant_id } =
        ground (arith, same_id, own, email, tenant) in
      (old, row, tenant, email, fits, answers ∙ ap (λ w. (answered (200, current w), s')) known)
