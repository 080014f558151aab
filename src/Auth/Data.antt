-- ===== src/Auth/Data.antt =====
-- src/modules/auth/dto and src/modules/auth/interfaces: the data of the authentication services.
use multi_tenant_saas_gatewa.Common.{ℕ, String}
use multi_tenant_saas_gatewa.Entities.{UserStatus}

pub record RegisterDto : Type 0 where
  pub email : String
  pub name : String
  pub password : String
  pub tenant_id : String

pub record LoginDto : Type 0 where
  pub email : String
  pub password : String
  pub tenant_id : String

pub record RefreshTokenDto : Type 0 where
  pub refresh_token : String
  pub tenant_id : String

pub record ChangePasswordDto : Type 0 where
  pub current_password : String
  pub new_password : String

pub record ForgotPasswordDto : Type 0 where
  pub email : String
  pub tenant_id : String

pub record ResetPasswordDto : Type 0 where
  pub token : String
  pub tenant_id : String
  pub new_password : String

pub record JwtPayload : Type 0 where
  pub sub : String
  pub email : String
  pub tenant_id : String

-- The user of a request, once a guard has let it through.
pub record AuthenticatedUser : Type 0 where
  pub user_id : String
  pub email : String
  pub tenant_id : String

pub record TokenUser : Type 0 where
  pub id : String
  pub email : String
  pub name : String
  pub tenant_id : String
  pub status : UserStatus

pub record TokenResponseDto : Type 0 where
  pub access_token : String
  pub refresh_token : String
  pub expires_in : ℕ
  pub token_type : String
  pub user : TokenUser
