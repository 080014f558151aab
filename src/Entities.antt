-- ===== src/Entities.antt =====
-- src/database/entities but for API keys and webhooks: the columns of each entity, without the JSON
-- columns, which no service reads. A many-to-many relation is the list of the related ids. The
-- DTOs that the services cache stand here too.
use multi_tenant_saas_gatewa.Common.{ℕ, String, Bool, Option, List}

pub data UserStatus : Type 0 where
  active inactive pending archived : UserStatus

pub data TenantStatus : Type 0 where
  active inactive suspended archived : TenantStatus

pub record User : Type 0 where
  pub tenant_id : String
  pub email : String
  pub name : String
  pub password_hash : String
  pub status : UserStatus
  pub email_verified : Bool
  pub email_verified_at : Option ℕ
  pub last_login_at : Option ℕ
  pub roles : List String

pub record Tenant : Type 0 where
  pub name : String
  pub slug : String
  pub description : Option String
  pub status : TenantStatus
  pub website : Option String
  pub logo : Option String

pub record Permission : Type 0 where
  pub resource : String
  pub action : String
  pub is_active : Bool

pub record Role : Type 0 where
  pub tenant_id : String
  pub name : String
  pub description : Option String
  pub is_system : Bool
  pub permissions : List String

pub record PasswordResetToken : Type 0 where
  pub user_id : String
  pub tenant_id : String
  pub token : String
  pub expires_at : ℕ
  pub used : Bool

-- src/modules/users/interfaces/user.interface.ts
pub record UserResponseDto : Type 0 where
  pub id : String
  pub email : String
  pub name : String
  pub tenant_id : String
  pub status : UserStatus
  pub last_login_at : Option ℕ
  pub created_at : ℕ
  pub updated_at : ℕ

-- src/modules/tenants/interfaces/tenant.interface.ts
pub record TenantResponseDto : Type 0 where
  pub id : String
  pub name : String
  pub slug : String
  pub description : Option String
  pub status : TenantStatus
  pub website : Option String
  pub logo : Option String
  pub created_at : ℕ
  pub updated_at : ℕ

-- src/common/decorators/require-permissions.decorator.ts
pub record PermissionRequirement : Type 0 where
  pub resource : String
  pub action : String

-- What the services put into the cache.
pub data Cached : Type 0 where
  user : UserResponseDto → Cached
  tenant : TenantResponseDto → Cached
  permissions : List PermissionRequirement → Cached
  role_names : List String → Cached
