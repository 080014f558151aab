-- ===== src/ApiKeys/Data.antt =====
-- src/modules/api-keys/dto, and src/database/entities/api-key.entity.ts: the data of the service.
use multi_tenant_saas_gatewa.Common.{ℕ, String, Option, List}

pub data ApiKeyStatus : Type 0 where
  active revoked expired : ApiKeyStatus

-- The columns of `ApiKey`, but for `metadata`, which is always `{}`.
pub record ApiKey : Type 0 where
  pub tenant_id : String
  pub name : String
  pub key : String
  pub secret : String
  pub status : ApiKeyStatus
  pub expires_at : Option ℕ
  pub last_used_at : Option ℕ
  pub scopes : List String

pub record CreateApiKeyDto : Type 0 where
  pub name : String
  pub scopes : Option (List String)
  pub expires_at : Option ℕ

pub record UpdateApiKeyDto : Type 0 where
  pub name : Option String
  pub scopes : Option (List String)
  pub expires_at : Option ℕ

-- `ApiKeyWithSecretResponseDto`; `secret` is set only where it was just generated.
pub record ApiKeyResponseDto : Type 0 where
  pub id : String
  pub tenant_id : String
  pub name : String
  pub key : String
  pub secret : Option String
  pub status : ApiKeyStatus
  pub scopes : List String
  pub expires_at : Option ℕ
  pub last_used_at : Option ℕ
  pub created_at : ℕ
  pub updated_at : ℕ
