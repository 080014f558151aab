-- ===== src/Controllers/AuditLogs.antt =====
-- src/modules/audit/audit.controller.ts, behind `JwtGuard` and `RbacGuard`. `parse_date` is
-- `new Date(text)`.
use multi_tenant_saas_gatewa.Common.{ℕ, String, Option, none, some, List, [], ◌∷◌, truthy}
use multi_tenant_saas_gatewa.Common.Outcome.{M}
use multi_tenant_saas_gatewa.Database.{Entity, Repository}
use multi_tenant_saas_gatewa.Entities.{PermissionRequirement}
use multi_tenant_saas_gatewa.Gateway.{Gateway, State}
use multi_tenant_saas_gatewa.Auth.{AuthenticatedUser}
use multi_tenant_saas_gatewa.Audit.{Number, AuditLog, AuditLogFilter, Audited}
use multi_tenant_saas_gatewa.Audit
use multi_tenant_saas_gatewa.Http.Request.{Request}
use multi_tenant_saas_gatewa.Http.Filter.{Response}
use multi_tenant_saas_gatewa.Controllers.{Context, serve}
use multi_tenant_saas_gatewa.Controllers.Rbac.{guards}

-- The parameters of the query.
pub record Params : Type 0 where
  pub user_id : Option String
  pub action : Option String
  pub resource_type : Option String
  pub status : Option String
  pub from : Option String
  pub to : Option String
  pub page : Option Number
  pub limit : Option Number

abbrev pub date_of : (String → ℕ) → Option String → Option ℕ
date_of parse_date none = none
date_of parse_date (some s) = some (parse_date s)

abbrev pub filter_of : (String → ℕ) → AuthenticatedUser → Params → AuditLogFilter
filter_of parse_date user p = record {
  tenant_id = user.tenant_id;
  user_id = p.user_id;
  action = p.action;
  resource_type = p.resource_type;
  status = p.status;
  from = date_of parse_date (truthy p.from);
  to = date_of parse_date (truthy p.to);
  page = p.page;
  limit = p.limit;
}

abbrev pub reading_logs : List PermissionRequirement
reading_logs = record { resource = "audit-logs"; action = "read" } ∷ []

module _ (g : Gateway) (A : Repository AuditLog) (parse_date : String → ℕ) (c : Context) where
  -- `AuditController.query`, which reads the log alone.
  unfoldable pub query :
      A.Table → AuthenticatedUser → Params → M (State g) (List (Entity AuditLog) × ℕ)
  query log user p s = ((Audit.query A (filter_of parse_date user p) log).0, s)

  unfoldable pub handle :
      Request
      → String
      → ℕ
      → Params
      → A.Table
      → State g
      → Response (List (Entity AuditLog) × ℕ) × State g
  unfolding query
  handle q uuid timestamp p log =
      serve q uuid timestamp (guards g c reading_logs q) (λ admitted. query log admitted.1 p)
