-- ===== src/Dto/Users.antt =====
-- The DTOs of users, sessions and profiles: src/modules/users/dto, src/modules/auth/dto and
-- src/modules/profile/dto.
use multi_tenant_saas_gatewa.Common.{
  String, Bool, true, false, ◌&&◌, ◌||◌, Option, none, some, [], ◌∷◌, ◌==◌, leb, if◌then◌else◌,
}
use multi_tenant_saas_gatewa.Entities.{UserStatus}
use multi_tenant_saas_gatewa.Users.{CreateUserPayload, UpdateUserPayload}
use multi_tenant_saas_gatewa.Auth.{
  RegisterDto, LoginDto, RefreshTokenDto, ChangePasswordDto, ForgotPasswordDto, ResetPasswordDto,
}
use multi_tenant_saas_gatewa.Dto.{
  Validators, Fields, ◌>>=◌, ◌>>◌, guard, whitelisted, string, optional_string, optional, text_of,
  string_type, anything, between,
}
use Prim.Native.Char.{code, Char}
use Prim.Native.String

abbrev pub user_status_of : String → Option UserStatus
user_status_of s =
    if s == "ACTIVE"
    then some UserStatus.active
    else if s == "INACTIVE"
    then some UserStatus.inactive
    else if s == "PENDING"
    then some UserStatus.pending
    else if s == "ARCHIVED"
    then some UserStatus.archived
    else none

abbrev is_lower : Char → Bool
is_lower c = leb b'a' (code c) && leb (code c) b'z'

abbrev is_upper : Char → Bool
is_upper c = leb b'A' (code c) && leb (code c) b'Z'

abbrev is_digit : Char → Bool
is_digit c = leb b'0' (code c) && leb (code c) b'9'

-- [@$!%*?&]
abbrev is_special : Char → Bool
is_special c =
    leb b'@' (code c) && leb (code c) b'@'
    || leb b'$' (code c) && leb (code c) b'%'
    || leb b'!' (code c) && leb (code c) b'!'
    || leb b'*' (code c) && leb (code c) b'*'
    || leb b'?' (code c) && leb (code c) b'?'
    || leb b'&' (code c) && leb (code c) b'&'

unfoldable pub some_char : (Char → Bool) → String → Bool
some_char p String.[] = false
some_char p (String.◌∷◌ c s) = p c || some_char p s

unfoldable pub all_chars : (Char → Bool) → String → Bool
all_chars p String.[] = true
all_chars p (String.◌∷◌ c s) = p c && all_chars p s

-- The pattern of a password: four look-aheads, and at least eight characters of the class.
unfoldable pub is_strong : String → Bool
unfolding some_char all_chars
is_strong s =
    some_char is_lower s
    && some_char is_upper s
    && some_char is_digit s
    && some_char is_special s
    && all_chars (λ c. is_lower c || is_upper c || is_digit c || is_special c) s
    && leb 8 (String.count s)

module _ (V : Validators) (fields : Fields) where
  unfoldable pub create_user_dto : Option CreateUserPayload
  unfolding whitelisted is_strong
  create_user_dto = do
    guard (whitelisted ("email" ∷ "name" ∷ "password" ∷ []) fields)
    email ← string V fields "email" V.is_email
    name ← string V fields "name" (λ s. between 2 100 (V.length s))
    password ← string V fields "password" (λ s. between 8 128 (V.length s) && is_strong s)
    some (record { email = email; name = name; password = password })

  unfoldable pub update_user_dto : Option UpdateUserPayload
  unfolding whitelisted
  update_user_dto = do
    guard (whitelisted ("name" ∷ "status" ∷ []) fields)
    name ← optional_string V fields "name" (λ s. between 2 100 (V.length s))
    status ← optional V fields string_type (λ v. text_of v >>= user_status_of) "status"
    some (record { name = name; status = status })

  unfoldable pub register_dto : Option RegisterDto
  unfolding whitelisted
  register_dto = do
    guard (whitelisted ("email" ∷ "name" ∷ "password" ∷ "tenantId" ∷ []) fields)
    email ← string V fields "email" V.is_email
    name ← string V fields "name" (λ s. leb 2 (V.length s))
    password ← string V fields "password" (λ s. leb 8 (V.length s))
    tenant_id ← string V fields "tenantId" V.is_uuid
    some (record { email = email; name = name; password = password; tenant_id = tenant_id })

  unfoldable pub login_dto : Option LoginDto
  unfolding whitelisted
  login_dto = do
    guard (whitelisted ("email" ∷ "password" ∷ "tenantId" ∷ []) fields)
    email ← string V fields "email" V.is_email
    password ← string V fields "password" (λ s. leb 8 (V.length s))
    tenant_id ← string V fields "tenantId" V.is_uuid
    some (record { email = email; password = password; tenant_id = tenant_id })

  unfoldable pub refresh_token_dto : Option RefreshTokenDto
  unfolding whitelisted
  refresh_token_dto = do
    guard (whitelisted ("refreshToken" ∷ "tenantId" ∷ []) fields)
    refresh_token ← string V fields "refreshToken" anything
    tenant_id ← string V fields "tenantId" V.is_uuid
    some (record { refresh_token = refresh_token; tenant_id = tenant_id })

  unfoldable pub change_password_dto : Option ChangePasswordDto
  unfolding whitelisted
  change_password_dto = do
    guard (whitelisted ("currentPassword" ∷ "newPassword" ∷ []) fields)
    current_password ← string V fields "currentPassword" (λ s. leb 8 (V.length s))
    new_password ← string V fields "newPassword" (λ s. leb 8 (V.length s))
    some (record { current_password = current_password; new_password = new_password })

  unfoldable pub forgot_password_dto : Option ForgotPasswordDto
  unfolding whitelisted
  forgot_password_dto = do
    guard (whitelisted ("email" ∷ "tenantId" ∷ []) fields)
    email ← string V fields "email" V.is_email
    tenant_id ← string V fields "tenantId" V.is_uuid
    some (record { email = email; tenant_id = tenant_id })

  unfoldable pub reset_password_dto : Option ResetPasswordDto
  unfolding whitelisted
  reset_password_dto = do
    guard (whitelisted ("token" ∷ "tenantId" ∷ "newPassword" ∷ []) fields)
    token ← string V fields "token" anything
    tenant_id ← string V fields "tenantId" V.is_uuid
    new_password ← string V fields "newPassword" (λ s. leb 8 (V.length s))
    some (record { token = token; tenant_id = tenant_id; new_password = new_password })

  -- `UpdateProfileDto`, whose only property is the name.
  unfoldable pub update_profile_dto : Option (Option String)
  unfolding whitelisted
  update_profile_dto = do
    guard (whitelisted ("name" ∷ []) fields)
    optional_string V fields "name" (λ s. between 2 255 (V.length s))
