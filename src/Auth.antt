-- ===== src/Auth.antt =====
-- src/modules/auth/services: registration, login, refresh, tokens, change and reset of the password.
-- The JWT service and Node's `crypto` are parameters. Passwords are hashed in ten rounds with a salt
-- that is an argument.
pub mod Data
pub mod Login
pub mod Reset
pub mod Tokens
pub mod Passwords
pub mod Tests
pub use Data.{
  RegisterDto, LoginDto, RefreshTokenDto, ChangePasswordDto, ForgotPasswordDto, ResetPasswordDto,
  JwtPayload, AuthenticatedUser, TokenUser, TokenResponseDto,
}
use multi_tenant_saas_gatewa.Common.{
  ℕ, ◌+◌, ◌-◌, ◌*◌, String, ◌≡◌, Bool, true, false, not, ◌&&◌, ◌||◌, Option, none, some, List, [],
  ◌∷◌, ◌==◌, if◌then◌else◌, leb, ltb, concat, get_or, is_some, truthy,
}
use multi_tenant_saas_gatewa.Common.Outcome.{
  Result, ok, throw, M, pure, raise, gets, ◌>>=◌, ◌>>◌, refuse_if, or_throw, bad_request,
  unauthorized, conflict, not_found, error, Exception,
}
use multi_tenant_saas_gatewa.Database.{Entity, Where}
use multi_tenant_saas_gatewa.Entities.{
  User, UserStatus, active, inactive, pending, archived, PasswordResetToken,
}
use multi_tenant_saas_gatewa.Users.{with_email, with_id}
use multi_tenant_saas_gatewa.Gateway.{
  Gateway, State, insert_user, save_user, insert_token, save_token, update_tokens,
}
use Prim.Native.Char.{code}
use Prim.Native.String

-- `JwtService`: `sign payload secret expires_in`, and `verify token secret`, which may throw.
pub record Jwt : Type 0 where
  pub sign : JwtPayload → String → String → Result String
  pub verify : String → String → Result JwtPayload

abbrev pub invalid_credentials : Exception
invalid_credentials = unauthorized "Invalid credentials: INVALID_CREDENTIALS"

abbrev pub invalid_token : Exception
invalid_token = unauthorized "Invalid token: INVALID_TOKEN"

abbrev pub may_log_in : UserStatus → Bool
may_log_in active = true
may_log_in inactive = false
may_log_in pending = true
may_log_in archived = false

-- The entity that `RegisterService` saves.
abbrev pub registered : RegisterDto → String → User
registered dto password_hash = record {
  tenant_id = dto.tenant_id;
  email = dto.email;
  name = dto.name;
  password_hash = password_hash;
  status = pending;
  email_verified = false;
  email_verified_at = none;
  last_login_at = none;
  roles = [];
}

module _ (g : Gateway) where
  -- `RegisterService.execute`.
  unfoldable pub register : RegisterDto → String → M (State g) (Entity User)
  register dto salt = do
    found ← gets (λ s. g.tenants.find_one (λ t. t.id == dto.tenant_id) s.tenants)
    refuse_if (not (is_some found)) (bad_request "Tenant not found: TENANT_NOT_FOUND")
    existing ← gets (λ s. g.users.find_one (with_email dto.tenant_id dto.email) s.users)
    refuse_if (is_some existing) (conflict "Email already exists: EMAIL_EXISTS")
    insert_user g (registered dto (g.bcrypt.hash salt 10 dto.password))

  -- `LoginService.execute`.
  unfoldable pub login : LoginDto → ℕ → M (State g) (Entity User)
  login dto now = do
    found ← gets (λ s. g.users.find_one (with_email dto.tenant_id dto.email) s.users)
    u ← or_throw found invalid_credentials
    refuse_if (not (g.bcrypt.compare dto.password u.own.password_hash)) invalid_credentials
    refuse_if (not (may_log_in u.own.status)) (unauthorized "User inactive: USER_INACTIVE")
    save_user g (record u { own = record (u.own) { last_login_at = some now } })

  -- `ChangePasswordService.execute`.
  unfoldable pub change_password :
      String → String → ChangePasswordDto → String → M (State g) (Unit {0})
  change_password user_id tenant_id dto salt = do
    found ← gets (λ s. g.users.find_one (with_id tenant_id user_id) s.users)
    u ← or_throw found (not_found "User not found")
    refuse_if (not (g.bcrypt.compare dto.current_password u.own.password_hash))
        (unauthorized "Current password is incorrect")
    _ ← save_user g (record u {
      own = record (u.own) { password_hash = g.bcrypt.hash salt 10 dto.new_password };
    })
    pure tt

  -- `jwtService.verify` under `try`, with the configured secret.
  unfoldable pub verify_refresh : Jwt → Option String → String → M (State g) JwtPayload
  verify_refresh jwt secret token s = elim (truthy secret) [
    | none ↦ raise invalid_token s
    | some key ↦ elim (jwt.verify token key) [
      | ok payload ↦ pure payload s
      | throw _ ↦ raise invalid_token s
    ]
  ]

  -- `RefreshTokenService.execute`; `secret` is `JWT_REFRESH_SECRET`.
  unfoldable pub refresh : Jwt → Option String → RefreshTokenDto → M (State g) (Entity User)
  unfolding verify_refresh
  refresh jwt secret dto = do
    payload ← verify_refresh jwt secret dto.refresh_token
    found ← gets (λ s. g.users.find_one (with_id dto.tenant_id payload.sub) s.users)
    or_throw found (unauthorized "User not found: USER_NOT_FOUND")

  abbrev pub reset_message : String
  reset_message = "If that email exists, a reset link has been sent."

  abbrev pub unused_of : String → Where PasswordResetToken
  unused_of user_id r = r.own.user_id == user_id && not (r.own.used)

  abbrev pub usable : String → String → ℕ → Where PasswordResetToken
  usable hashed tenant_id now r =
      r.own.token == hashed
      && r.own.tenant_id == tenant_id
      && not (r.own.used)
      && ltb now r.own.expires_at

  -- The token that `requestReset` saves: it lives for sixty minutes.
  abbrev pub new_token : String → String → String → ℕ → PasswordResetToken
  new_token user_id tenant_id hashed now = record {
    user_id = user_id;
    tenant_id = tenant_id;
    token = hashed;
    expires_at = now + 60 * 60 * 1000;
    used = false;
  }

  -- `PasswordResetService.requestReset`; `sha256` is the hexadecimal digest, `raw_token` the random
  -- bytes.
  unfoldable pub request_reset :
      (String → String) → ForgotPasswordDto → String → ℕ → M (State g) String
  request_reset sha256 dto raw_token now s =
      elim (g.users.find_one (with_email dto.tenant_id dto.email) s.users) [
        | none ↦ pure reset_message s
        | some u ↦
            (do
              update_tokens g (unused_of u.id) (λ r. record r { used = true })
              _ ← insert_token g (new_token u.id dto.tenant_id (sha256 raw_token) now)
              pure reset_message)
              s
      ]

  -- `PasswordResetService.resetPassword`; the relation `user` of the token is the row with its
  -- `userId`.
  unfoldable pub reset_password :
      (String → String) → ResetPasswordDto → String → ℕ → M (State g) (Unit {0})
  reset_password sha256 dto salt now = do
    found ←
        gets (λ s.
          g.reset_tokens.find_one (usable (sha256 dto.token) dto.tenant_id now) s.reset_tokens)
    r ← or_throw found (bad_request "Invalid or expired reset token")
    owner ← gets (λ s. g.users.find_one (λ u. u.id == r.own.user_id) s.users)
    u ← or_throw owner (error "Cannot set properties of null (setting 'passwordHash')")
    _ ← save_user g (record u {
      own = record (u.own) { password_hash = g.bcrypt.hash salt 10 dto.new_password };
    })
    _ ← save_token g (record r { own = record (r.own) { used = true } })
    pure tt

-- `extractHours`: the digits at the start of the text, by `/^(\d+)/` and `parseInt`.
unfoldable pub leading_number : Option ℕ → String → Option ℕ
leading_number acc String.[] = acc
leading_number acc (String.◌∷◌ c s) =
    if leb b'0' (code c) && leb (code c) b'9'
    then leading_number (some (get_or acc 0 * 10 + (code c - b'0'))) s
    else acc

unfoldable pub extract_hours : String → ℕ
unfolding leading_number
extract_hours expiration = get_or (leading_number none expiration) 24

-- What `ConfigService` holds for the tokens.
pub record TokenConfig : Type 0 where
  pub jwt_expiration : Option String
  pub refresh_expiration : Option String
  pub jwt_secret : Option String
  pub refresh_secret : Option String

-- `getRequiredConfigString`.
unfoldable pub required : String → Option String → Result String
required key value = elim (truthy value) [
  | none ↦ throw (error (concat ("Required configuration key not set: " ∷ key ∷ [])))
  | some s ↦ ok s
]

abbrev pub sign_with : Jwt → JwtPayload → Result String → String → Result String
sign_with jwt payload (ok secret) expires_in = jwt.sign payload secret expires_in
sign_with jwt payload (throw e) expires_in = throw e

abbrev pub token_response :
    Entity User → ℕ → Result String → Result String → Result TokenResponseDto
token_response u hours (throw e) refresh_token = throw e
token_response u hours (ok access) (throw e) = throw e
token_response u hours (ok access) (ok refreshed) = ok (record {
  access_token = access;
  refresh_token = refreshed;
  expires_in = hours;
  token_type = "Bearer";
  user = record {
    id = u.id;
    email = u.own.email;
    name = u.own.name;
    tenant_id = u.own.tenant_id;
    status = u.own.status;
  };
})

-- `TokenGeneratorService.generate`.
unfoldable pub generate : Jwt → TokenConfig → Entity User → Result TokenResponseDto
unfolding required extract_hours
generate jwt cfg u =
    let expiration = get_or cfg.jwt_expiration "24h" in
    let payload : JwtPayload = record {
      sub = u.id;
      email = u.own.email;
      tenant_id = u.own.tenant_id;
    } in
    token_response u (extract_hours expiration)
      (sign_with jwt payload (required "JWT_SECRET" cfg.jwt_secret) expiration)
      (sign_with jwt payload (required "JWT_REFRESH_SECRET" cfg.refresh_secret)
        (get_or cfg.refresh_expiration "7d"))
