-- ===== src/Http/Logging.antt =====
-- src/common/interceptors/logging.interceptor.ts, the line of the log included. `response.statusCode`
-- and both readings of the clock are arguments. Node joins a repeated header of this name to one text,
-- so the tenant's header is never an array.
use multi_tenant_saas_gatewa.Common.{
  ℕ, ◌-◌, String, ◌≡◌, refl, Option, some, List, [], ◌∷◌, if◌then◌else◌, get_or, ltb, concat,
  decimal,
}
use multi_tenant_saas_gatewa.Common.Outcome.{Result, ok, throw, M}
use multi_tenant_saas_gatewa.Http.Request.{Request}
use multi_tenant_saas_gatewa.Http.Middleware.{request_id, with_request_id}

pub data Level : Type 0 where
  log warn : Level

pub record Line : Type 0 where
  pub level : Level
  pub text : String

-- What a handler works on, the header `x-request-id` of the answer, and the log, newest line first.
pub record Logged (S : Type 0) : Type 0 where
  pub inner : S
  pub header : Option String
  pub lines : List Line

-- `Date.now() - startTime`, which is negative where the clock was set back.
abbrev pub duration : ℕ → ℕ → String
duration start stop =
    if ltb stop start then concat ("-" ∷ decimal (start - stop) ∷ []) else decimal (stop - start)

abbrev pub logged_tenant : Request → String
logged_tenant q = get_or q.x_tenant_id "unknown"

-- The text of both callbacks; the outcome is the status code, or ERROR.
unfoldable pub line_text : Request → String → String → String → String
line_text q id outcome took = concat (
    "["
    ∷ id
    ∷ "] "
    ∷ q.method
    ∷ " "
    ∷ q.url
    ∷ " → "
    ∷ outcome
    ∷ " ("
    ∷ took
    ∷ "ms) tenant="
    ∷ logged_tenant q
    ∷ [])

-- The two callbacks of `tap`.
unfoldable pub line_of : {B : Type 0} → Request → String → ℕ → ℕ → ℕ → Result B → Line
line_of q id start stop status (ok b) = record {
  level = log;
  text = line_text q id (decimal status) (duration start stop);
}
line_of q id start stop status (throw e) = record {
  level = warn;
  text = line_text q id "ERROR" (duration start stop);
}

module _ {S B : Type 0} where
  -- `LoggingInterceptor.intercept`
  unfoldable pub intercept : Request → String → ℕ → ℕ → ℕ → (Request → M S B) → M (Logged S) B
  intercept q uuid start stop status handler s =
      let id = request_id q uuid in
      let (r, t) = handler (with_request_id q uuid) s.inner in
      (
        r,
        record { inner = t; header = some id; lines = line_of q id start stop status r ∷ s.lines },
      )

  -- The answer and the state are those of the handler, run on a request whose id is the one that the
  -- answer's header carries; an id that came with the request is kept.
  pub intercept_inner :
      (q : Request) (uuid : String) (start stop status : ℕ) (handler : Request → M S B)
      (s : Logged S)
      → let r = intercept q uuid start stop status handler s in
        ((r.0, r.1.inner) ≡ handler (with_request_id q uuid) s.inner)
        × (r.1.header ≡ (with_request_id q uuid).x_request_id)
  unfolding intercept
  intercept_inner q uuid start stop status handler s = (refl, refl)
