-- ===== src/Tenants/Data.antt =====
-- src/modules/tenants/interfaces: the data of the tenant service.
use multi_tenant_saas_gatewa.Common.{ℕ, String, Option}
use multi_tenant_saas_gatewa.Entities.{TenantStatus}

pub record CreateTenantPayload : Type 0 where
  pub name : String
  pub slug : String
  pub description : Option String
  pub website : Option String
  pub logo : Option String

pub record UpdateTenantPayload : Type 0 where
  pub name : Option String
  pub slug : Option String
  pub description : Option String
  pub website : Option String
  pub logo : Option String
  pub status : Option TenantStatus

-- The answer of an update: a field that the body does not name is undefined in it.
pub record UpdatedTenant : Type 0 where
  pub id : String
  pub name : Option String
  pub slug : Option String
  pub description : Option String
  pub status : Option TenantStatus
  pub website : Option String
  pub logo : Option String
  pub created_at : ℕ
  pub updated_at : ℕ
