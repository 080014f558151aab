-- ===== src/Webhooks/Tests.antt =====
-- The webhook service on a table in memory.
use multi_tenant_saas_gatewa.Common.{
  ◌+◌, ℕ, ◌≤◌, String, ◌≡◌, ◌↔◌, refl, true, none, some, [], ◌∷◌, ◌==◌, ◌||◌, if◌then◌else◌, arith,
  ltb, string_dec, concat,
}
use multi_tenant_saas_gatewa.Common.Outcome.{ok, throw, error}
use multi_tenant_saas_gatewa.Database.{Entity, Repository, IsLawful}
use multi_tenant_saas_gatewa.Database.Memory.{memory, memory-IsLawful}
use multi_tenant_saas_gatewa.Webhooks.{
  Webhook, user_created, user_deleted, event_name, Net, status, rejected, State, refusal, deliver,
  trigger, delivered, failed, request,
}
use multi_tenant_saas_gatewa.Webhooks.Retries.{deliver_bounded}
use multi_tenant_saas_gatewa.Webhooks.Delivery.{posted, deliver_success, deliver_exhausted}
use multi_tenant_saas_gatewa.Webhooks.Tenancy.{receives, trigger_spares}

abbrev pub R : Repository Webhook
R = memory Webhook

abbrev pub L : IsLawful R
L = memory-IsLawful Webhook

abbrev pub hook : Entity Webhook
hook = record {
  base = record { id = "w1"; created_at = 0; updated_at = 0; deleted_at = none };
  own = record {
    tenant_id = "acme";
    url = "https://acme";
    description = none;
    events = user_created ∷ [];
    secret = "whsec_1";
    is_active = true;
    max_retries = 2;
    delivery_count = 0;
    failure_count = 0;
    last_delivered_at = none;
  };
}

abbrev pub bytes : String → ℕ
bytes s = if s == "" then 0 else 1

-- Every attempt before the attempt `k` fails.
abbrev pub up_from : ℕ → Net
up_from k = record {
  stringify = λ event payload now. payload;
  hmac = λ secret body. concat (secret ∷ body ∷ []);
  timing_safe_equal = λ a b.
      if ltb (bytes a) (bytes b) || ltb (bytes b) (bytes a)
      then throw (error "RangeError")
      else ok (a == b);
  fetch = λ post n. if ltb n k then rejected (error "down") else status 200;
}

unfoldable table : R.Table
unfolding memory
table = hook ∷ []

abbrev start : State R
start = record { table = table; sent = [] }

-- The readings of a delivery.
abbrev clock : ℕ → ℕ
clock n = 7 + n

after_success : R.Table
unfolding memory
after_success = delivered 9 hook ∷ []

after_failure : R.Table
unfolding memory
after_failure = failed hook ∷ []

deliver_success_example : deliver R (up_from 1) hook user_created "{}" clock start ≡ (
  ok tt,
  record {
    table = after_success;
    sent = posted 2 (request R (up_from 1) hook user_created "{}" 7) [];
  },
)
unfolding memory table after_success string_dec refusal
deliver_success_example =
    deliver_success R (up_from 1) hook (delivered 9 hook) user_created "{}" clock 1 after_success
      start (ground arith) (λ j lt. ground arith) refl refl

deliver_exhausted_example : deliver R (up_from 2) hook user_created "{}" clock start ≡ (
  throw (error "down"),
  record {
    table = after_failure;
    sent = posted 2 (request R (up_from 2) hook user_created "{}" 7) [];
  },
)
unfolding memory table after_failure string_dec refusal
deliver_exhausted_example =
    deliver_exhausted R (up_from 2) hook (failed hook) user_created "{}" clock 1 (error "down")
      after_failure start refl (λ j lt. ground arith) refl refl

deliver_bounded_example :
    (n : ℕ) × (n ≤ 2)
    × ((deliver R (up_from 2) hook user_created "{}" clock start).1.sent
        ≡ posted n (request R (up_from 2) hook user_created "{}" 7) [])
deliver_bounded_example = deliver_bounded R (up_from 2) hook user_created "{}" clock start

trigger_spares_example : (L.row start.table "w1" ≡ some hook) ↔ (
    L.row (trigger R (up_from 0) "acme" user_deleted "{}" (λ _. clock) start).1.table "w1"
    ≡ some hook)
unfolding receives event_name string_dec
trigger_spares_example =
    trigger_spares R L (up_from 0) "acme" user_deleted "{}" (λ _. clock) start "w1" hook refl
