-- ===== src/Audit.antt =====
-- src/modules/audit: audit.service.ts and audit.interceptor.ts, and
-- src/database/entities/audit-log.entity.ts, without its columns `changes` and `metadata`, which no
-- caller gives. An entry is written when the handler has ended, before the answer.
pub mod Transparent
pub mod Query
mod Tests
use multi_tenant_saas_gatewa.Common.{
  ℕ, zero, suc, ◌+◌, ◌-◌, ◌*◌, String, Bool, true, false, not, ◌&&◌, Option, none, some, List, [],
  ◌∷◌, ◌==◌, if◌then◌else◌, get_or, truthy, leb, min,
}
use multi_tenant_saas_gatewa.Common.Outcome.{
  Result, ok, throw, M, Exception, http, query_failed, entity_not_found, error,
}
use multi_tenant_saas_gatewa.Database.{Entity, Where, Repository}
use multi_tenant_saas_gatewa.Auth.{AuthenticatedUser}
use multi_tenant_saas_gatewa.Http.Request.{Request, HeaderValue, missing, single, several}

pub record AuditLog : Type 0 where
  pub tenant_id : String
  pub user_id : Option String
  pub action : String
  pub resource_type : String
  pub resource_id : Option String
  pub status : String
  pub error_message : Option String
  pub ip_address : Option String
  pub user_agent : Option String

-- `CreateAuditLogDto`.
pub record CreateAuditLogDto : Type 0 where
  pub tenant_id : String
  pub user_id : Option String
  pub action : String
  pub resource_type : String
  pub resource_id : Option String
  pub status : String
  pub error_message : Option String
  pub ip_address : Option String
  pub user_agent : Option String

pub data ℤ : Type 0 where
  pos : ℕ → ℤ
  negsuc : ℕ → ℤ

-- A number that a request gives and nothing validates: not a number, or a whole one. `negsuc n` is -(n + 1).
pub data Number : Type 0 where
  nan : Number
  whole : ℤ → Number

pub record AuditLogFilter : Type 0 where
  pub tenant_id : String
  pub user_id : Option String
  pub action : Option String
  pub resource_type : Option String
  pub status : Option String
  pub from : Option ℕ
  pub to : Option ℕ
  pub page : Option Number
  pub limit : Option Number

abbrev pub entry_of : CreateAuditLogDto → AuditLog
entry_of dto = record {
  tenant_id = dto.tenant_id;
  user_id = dto.user_id;
  action = dto.action;
  resource_type = dto.resource_type;
  resource_id = dto.resource_id;
  status = dto.status;
  error_message = dto.error_message;
  ip_address = dto.ip_address;
  user_agent = dto.user_agent;
}

-- `if (value) Object.assign(where, { field: value })`
abbrev pub matches : Option String → Option String → Bool
matches none field = true
matches (some value) none = false
matches (some value) (some s) = s == value

-- `Between(from, to)`, where both are given.
abbrev pub between : Option ℕ → Option ℕ → ℕ → Bool
between (some from) (some to) at = leb from at && leb at to
between (some from) none at = true
between none to at = true

abbrev pub query_where : AuditLogFilter → Where AuditLog
query_where f e =
    e.own.tenant_id == f.tenant_id
    && matches (truthy f.user_id) e.own.user_id
    && matches (truthy f.action) (some e.own.action)
    && matches (truthy f.resource_type) (some e.own.resource_type)
    && matches (truthy f.status) (some e.own.status)
    && between f.from f.to e.created_at

abbrev pub not_a_number : Exception
not_a_number = error "Provided \"skip\" value is not a number. Please provide a numeric value."

abbrev pub negative_offset : Exception
negative_offset = query_failed (some "2201X")

abbrev pub negative_limit : Exception
negative_limit = query_failed (some "2201W")

module _ (A : Repository AuditLog) where
  -- `AuditService.log`: what the write throws is caught.
  unfoldable pub log : CreateAuditLogDto → A.Table → A.Table
  log dto t = elim (A.insert (entry_of dto) t) [ ok saved ↦ saved.1 | throw _ ↦ t ]

  -- A page before the first: the offset is negative unless the limit is 0.
  abbrev pub before_first : Where AuditLog → ℕ → M A.Table (List (Entity AuditLog) × ℕ)
  before_first q limit t =
      if leb limit 0 then (ok (A.find_page q 0 0 t), t) else (throw negative_offset, t)

  -- `findAndCount` for a page and a limit, with `skip` as `(page - 1) * limit`. TypeORM refuses what is
  -- no number, PostgreSQL a negative offset first and then a negative limit.
  unfoldable pub find_and_count :
      Where AuditLog → Number → Number → M A.Table (List (Entity AuditLog) × ℕ)
  find_and_count q nan limit t = (throw not_a_number, t)
  find_and_count q (whole page) nan t = (throw not_a_number, t)
  find_and_count q (whole (pos zero)) (whole (pos limit)) t = before_first q (min limit 200) t
  find_and_count q (whole (pos (suc skipped))) (whole (pos limit)) t =
      (ok (A.find_page q (skipped * min limit 200) (min limit 200) t), t)
  find_and_count q (whole (negsuc n)) (whole (pos limit)) t = before_first q (min limit 200) t
  find_and_count q (whole (pos zero)) (whole (negsuc m)) t = (throw negative_limit, t)
  find_and_count q (whole (pos (suc zero))) (whole (negsuc m)) t = (throw negative_limit, t)
  find_and_count q (whole (pos (suc (suc n)))) (whole (negsuc m)) t = (throw negative_offset, t)
  find_and_count q (whole (negsuc n)) (whole (negsuc m)) t = (throw negative_limit, t)

  -- `AuditService.query`.
  unfoldable pub query : AuditLogFilter → M A.Table (List (Entity AuditLog) × ℕ)
  unfolding find_and_count
  query f t =
      find_and_count (query_where f) (get_or f.page (whole (pos 1)))
        (get_or f.limit (whole (pos 50))) t

-- `Audit(action, resource)` on a handler.
pub record Audit : Type 0 where
  pub action : String
  pub resource : String

abbrev pub first_address : HeaderValue → Option String → Option String
first_address (single s) remote = some s
first_address (several []) remote = none
first_address (several (s ∷ rest)) remote = some s
first_address missing remote = some (get_or remote "")

-- `err.message`; `driver` gives that of an error of the database.
abbrev pub message_of : (Exception → String) → Exception → String
message_of driver (http status body m) = m
message_of driver (error m) = m
message_of driver (query_failed code) = driver (query_failed code)
message_of driver entity_not_found = driver entity_not_found

abbrev pub user_tenant : Option AuthenticatedUser → Option String
user_tenant none = none
user_tenant (some u) = truthy (some u.tenant_id)

abbrev pub user_id_of : Option AuthenticatedUser → Option String
user_id_of none = none
user_id_of (some u) = some u.user_id

-- The tenant of an entry: the header before the user.
abbrev pub log_tenant : Request → Option AuthenticatedUser → String
log_tenant q u = elim (truthy q.x_tenant_id) [ none ↦ get_or (user_tenant u) "" | some t ↦ t ]

unfoldable pub write_dto :
    Audit → Request → Option AuthenticatedUser → String → Option String → CreateAuditLogDto
write_dto a q u status error_message = record {
  tenant_id = log_tenant q u;
  user_id = user_id_of u;
  action = a.action;
  resource_type = a.resource;
  resource_id = truthy q.param_id;
  status = status;
  error_message = error_message;
  ip_address = first_address q.x_forwarded_for q.remote_address;
  user_agent = some (get_or (truthy q.user_agent) "");
}

-- A state with the table of the log.
pub record Audited (A : Repository AuditLog) (S : Type 0) : Type 0 where
  pub inner : S
  pub log : A.Table

module _ (A : Repository AuditLog) {S B : Type 0} where
  -- The two callbacks of `intercept`, on what the handler gave.
  unfoldable pub record_outcome :
      (Exception → String)
      → Audit
      → Request
      → Option AuthenticatedUser
      → Result B × S
      → A.Table
      → Result B × Audited A S
  unfolding log write_dto
  record_outcome driver a q u (ok b, s) t =
      (ok b, record { inner = s; log = log A (write_dto a q u "SUCCESS" none) t })
  record_outcome driver a q u (throw e, s) t = (
    throw e,
    record { inner = s; log = log A (write_dto a q u "FAILURE" (some (message_of driver e))) t },
  )

  -- `AuditInterceptor.intercept`; a handler without `@Audit` passes through.
  unfoldable pub intercept :
      (Exception → String)
      → Option Audit
      → Request
      → Option AuthenticatedUser
      → M S B
      → M (Audited A S) B
  unfolding record_outcome
  intercept driver none q u handler s =
      let (r, s') = handler s.inner in (r, record s { inner = s' })
  intercept driver (some a) q u handler s = record_outcome driver a q u (handler s.inner) s.log
