-- ===== src/Audit/Transparent.antt =====
-- The audit of a handler changes nothing but the log.
use multi_tenant_saas_gatewa.Common.{
  ◌+◌, String, ◌≡◌, refl, ◌⊎◌, inl, inr, true, Option, none, some, arith, truthy, get_or,
}
use multi_tenant_saas_gatewa.Common.Outcome.{Result, ok, throw, M, Exception}
use multi_tenant_saas_gatewa.Database.{Entity, Repository, IsLawful}
use multi_tenant_saas_gatewa.Database.Laws.{Result-cases, insert_cases}
use multi_tenant_saas_gatewa.Auth.{AuthenticatedUser}
use multi_tenant_saas_gatewa.Http.Request.{Request}
use multi_tenant_saas_gatewa.Audit.{
  AuditLog, Audit, Audited, CreateAuditLogDto, entry_of, log, write_dto, record_outcome, intercept,
  log_tenant, user_id_of, message_of, first_address,
}

module _ (A : Repository AuditLog) {S B : Type 0} where
  record_outcome_inner :
      (driver : Exception → String) (a : Audit) (q : Request) (u : Option AuthenticatedUser)
      (o : Result B × S) (t : A.Table)
      → ((record_outcome A driver a q u o t).0 ≡ o.0)
        × ((record_outcome A driver a q u o t).1.inner ≡ o.1)
  unfolding record_outcome
  record_outcome_inner driver a q u (ok b, s) t = (refl, refl)
  record_outcome_inner driver a q u (throw e, s) t = (refl, refl)

  -- A handler, audited or not, answers as if it stood alone.
  pub intercept_inner :
      (driver : Exception → String) (a : Option Audit) (q : Request) (u : Option AuthenticatedUser)
      (handler : M S B) (s : Audited A S)
      → ((intercept A driver a q u handler s).0 ≡ (handler s.inner).0)
        × ((intercept A driver a q u handler s).1.inner ≡ (handler s.inner).1)
  unfolding intercept
  intercept_inner driver none q u handler s = (refl, refl)
  intercept_inner driver (some a) q u handler s =
      record_outcome_inner driver a q u (handler s.inner) s.log

module _ (A : Repository AuditLog) (L : IsLawful A) where
  -- The log with the given entry more; or the insert of that entry failed, and the log is as it was.
  abbrev pub Logged : A.Table → A.Table → AuditLog → Type 0
  Logged t t' entry =
      ((x : Exception) × (A.insert entry t ≡ throw x) × (t' ≡ t))
      ⊎ ((e : Entity AuditLog) × (L.row t e.id ≡ none)
          × (L.row t' e.id ≡ some e)
          × (A.count (λ _. true) t' ≡ A.count (λ _. true) t + 1)
          × (e.own ≡ entry))

  log-Logged : (dto : CreateAuditLogDto) (t : A.Table) → Logged t (log A dto t) (entry_of dto)
  unfolding log
  log-Logged dto t = elim (Result-cases (A.insert (entry_of dto) t)) [
    | inl (x, failed) ↦ inl (x, failed, rw (failed, log) refl)
    | inr ((e, t'), done) ↦ inr (
      e,
      ground (arith, done, insert_cases L (λ _. true) e.id (entry_of dto) t),
      ground (arith, done, insert_cases L (λ _. true) e.id (entry_of dto) t),
      ground (arith, done, insert_cases L (λ _. true) e.id (entry_of dto) t),
      ground (arith, done, insert_cases L (λ _. true) e.id (entry_of dto) t),
    )
  ]

  -- What is to be recorded of a request: the tenant of the header, or else of the user, the action and
  -- resource of the handler, and how it ended.
  abbrev pub recorded :
      {B : Type 0}
      → (Exception → String)
      → Audit
      → Request
      → Option AuthenticatedUser
      → Result B
      → AuditLog
  recorded driver a q u answer = record {
    tenant_id = log_tenant q u;
    user_id = user_id_of u;
    action = a.action;
    resource_type = a.resource;
    resource_id = truthy q.param_id;
    status = elim answer [ ok b ↦ "SUCCESS" | throw e ↦ "FAILURE" ];
    error_message = elim answer [ ok b ↦ none | throw e ↦ some (message_of driver e) ];
    ip_address = first_address q.x_forwarded_for q.remote_address;
    user_agent = some (get_or (truthy q.user_agent) "");
  }

  record_outcome_lem :
      {S B : Type 0} (driver : Exception → String) (a : Audit) (q : Request)
      (u : Option AuthenticatedUser) (o : Result B × S) (t : A.Table)
      → let r = record_outcome A driver a q u o t in
        (r.0 ≡ o.0) × (r.1.inner ≡ o.1) × Logged t r.1.log (recorded driver a q u o.0)
  unfolding record_outcome write_dto
  record_outcome_lem driver a q u (ok b, s) t =
      (refl, refl, log-Logged (write_dto a q u "SUCCESS" none) t)
  record_outcome_lem driver a q u (throw e, s) t =
      (refl, refl, log-Logged (write_dto a q u "FAILURE" (some (message_of driver e))) t)

  -- The interceptor gives the answer of the handler and leaves the state that the handler left. The
  -- log has exactly one new entry, which records the tenant of the header, or else of the user, the
  -- user, the action and resource of the handler, whether it succeeded, and if not its message; only
  -- where the insert of this entry fails the log is as it was.
  pub intercept_transparent :
      {S B : Type 0} (driver : Exception → String) (a : Audit) (q : Request)
      (u : Option AuthenticatedUser) (handler : M S B) (s : Audited A S)
      → let r = intercept A driver (some a) q u handler s in
        (r.0 ≡ (handler s.inner).0)
        × (r.1.inner ≡ (handler s.inner).1)
        × Logged s.log r.1.log (recorded driver a q u (handler s.inner).0)
  unfolding intercept
  intercept_transparent driver a q u handler s =
      record_outcome_lem driver a q u (handler s.inner) s.log
