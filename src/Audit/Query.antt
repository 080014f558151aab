-- ===== src/Audit/Query.antt =====
-- What a page of the audit log holds.
use multi_tenant_saas_gatewa.Common.{
  ℕ, suc, ◌≤◌, ◌≡◌, Bool, false, ◌⊎◌, true, false, List, ◌==◌, all, length, ◌&&◌,
}
use multi_tenant_saas_gatewa.Common.Outcome.{Result, Exception, ok, throw}
use multi_tenant_saas_gatewa.Database.{Entity, Where, Repository}
use multi_tenant_saas_gatewa.Audit.{
  pos, Number, whole, AuditLog, AuditLogFilter, query_where, between,
}

-- A row of the tenant of the filter, between its dates.
abbrev pub asked_for : AuditLogFilter → Where AuditLog
asked_for f e = e.own.tenant_id == f.tenant_id && between f.from f.to e.created_at

abbrev pub is_positive : Number → Bool
is_positive (whole (pos (suc n))) = true
is_positive _ = false

-- As many rows as a limit allows.
abbrev pub size : Number → ℕ
size (whole (pos n)) = n
size _ = 0

-- What a query for a page gives.
abbrev pub Paged :
    (A : Repository AuditLog)
    → AuditLogFilter
    → A.Table
    → Number
    → Number
    → Result (List (Entity AuditLog) × ℕ) × A.Table
    → Type 0
Paged A f t page limit r =
    ((is_positive page && is_positive limit ≡ false) × ((x : Exception) × (r ≡ (throw x, t))))
    ⊎ ((is_positive page && is_positive limit ≡ true)
        × (rows : List (Entity AuditLog)) × (r ≡ (ok (rows, A.count (query_where f) t), t))
        × (length rows ≤ 200)
        × (length rows ≤ size limit)
        × (all (asked_for f) rows ≡ true))
