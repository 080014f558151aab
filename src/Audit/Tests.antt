-- ===== src/Audit/Tests.antt =====
-- The audit log in memory.
use multi_tenant_saas_gatewa.Common.{ℕ, ◌+◌, String, ◌≡◌, refl, none, some, [], ◌∷◌, string_dec}
use multi_tenant_saas_gatewa.Common.Outcome.{ok, throw, M, not_found}
use multi_tenant_saas_gatewa.Database.{Entity}
use multi_tenant_saas_gatewa.Database.Memory.{memory, memory-IsLawful}
use multi_tenant_saas_gatewa.Auth.{AuthenticatedUser}
use multi_tenant_saas_gatewa.Http.Request.{Request, missing}
use multi_tenant_saas_gatewa.Audit.{
  find_and_count, whole, pos, AuditLog, AuditLogFilter, Audited, intercept, query,
}
use multi_tenant_saas_gatewa.Audit.Transparent.{Logged, intercept_transparent}

abbrev logs : Entity AuditLog
logs = record {
  base = record { id = "l1"; created_at = 7; updated_at = 7; deleted_at = none };
  own = record {
    tenant_id = "acme";
    user_id = none;
    action = "user.create";
    resource_type = "users";
    resource_id = none;
    status = "SUCCESS";
    error_message = none;
    ip_address = none;
    user_agent = none;
  };
}

abbrev all_of_acme : AuditLogFilter
all_of_acme = record {
  tenant_id = "acme";
  user_id = none;
  action = none;
  resource_type = none;
  status = none;
  from = some 5;
  to = some 9;
  page = none;
  limit = some (whole (pos 1000));
}

unfoldable one_entry : (memory AuditLog).Table
unfolding memory
one_entry = logs ∷ []

-- The entry is on the first page.
finds_entry : query (memory AuditLog) all_of_acme one_entry ≡ (ok (logs ∷ [], 1), one_entry)
unfolding query find_and_count memory string_dec one_entry
finds_entry = refl

abbrev request : Request
request = record {
  method = "DELETE";
  url = "/users/u1";
  host = none;
  x_tenant_id = some "acme";
  x_request_id = none;
  x_api_key = none;
  x_api_secret = none;
  x_forwarded_for = missing;
  user_agent = none;
  remote_address = some "10.0.0.1";
  bearer_token = none;
  param_id = some "u1";
}

abbrev eve : AuthenticatedUser
eve = record { user_id = "e1"; email = "eve@globex"; tenant_id = "globex" }

-- A handler that counts and then fails.
abbrev failing : M ℕ String
failing n = (throw (not_found "no user"), n + 1)

unfoldable start : Audited (memory AuditLog) ℕ
unfolding memory
start = record { inner = 4; log = [] }

intercept_transparent_example :
    let r =
      intercept
        (memory AuditLog)
        (λ e. "?")
        (some (record { action = "user.delete"; resource = "users" }))
        request
        (some eve)
        failing
        start in
    (r.0 ≡ throw (not_found "no user"))
    × (r.1.inner ≡ 5)
    × Logged (memory AuditLog) (memory-IsLawful AuditLog) start.log r.1.log (record {
      tenant_id = "acme";
      user_id = some "e1";
      action = "user.delete";
      resource_type = "users";
      resource_id = some "u1";
      status = "FAILURE";
      error_message = some "no user";
      ip_address = some "10.0.0.1";
      user_agent = some "";
    })
unfolding start memory string_dec
intercept_transparent_example =
    intercept_transparent (memory AuditLog) (memory-IsLawful AuditLog) (λ e. "?")
      (record { action = "user.delete"; resource = "users" }) request (some eve) failing start
