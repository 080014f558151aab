-- ===== src/Controllers/Logging.antt =====
-- src/common/interceptors/logging.interceptor.ts around a handler of a controller.
use multi_tenant_saas_gatewa.Common.{ℕ, String, ◌≡◌, refl}
use multi_tenant_saas_gatewa.Common.Outcome.{ok, M}
use multi_tenant_saas_gatewa.Http.Request.{Request}
use multi_tenant_saas_gatewa.Http.Middleware.{with_request_id}
use multi_tenant_saas_gatewa.Http.Filter.{respond}
use multi_tenant_saas_gatewa.Http.Logging.{Logged, intercept}
use multi_tenant_saas_gatewa.Controllers.{proceed}

module _ {S G A : Type 0} where
  -- A request that has passed the guards is answered as the interceptor around its handler gives it,
  -- whatever the log holds and whatever the clock reads.
  proceed-intercept :
      (q : Request) (uuid : String) (start stop status timestamp : ℕ) (admitted : G)
      (handler : G → M S A) (s : Logged S)
      → let r = intercept q uuid start stop status (λ _. handler admitted) s in
        proceed q uuid timestamp (ok admitted, s.inner) handler
        ≡ (respond (with_request_id q uuid) timestamp r.0, r.1.inner)
  unfolding intercept
  proceed-intercept q uuid start stop status timestamp admitted handler s = refl
