-- ===== src/Dto/Tests.antt =====
-- Bodies and queries that are let through, and ones that are refused.
use multi_tenant_saas_gatewa.Common.{
  ◌+◌, ℕ, ◌≤◌, String, ◌≡◌, ◌↔◌, refl, true, false, none, some, List, [], ◌∷◌, string_dec, concat,
  all, arith, leb,
}
use multi_tenant_saas_gatewa.Database.{Entity}
use multi_tenant_saas_gatewa.Database.Memory.{memory, memory-IsLawful}
use multi_tenant_saas_gatewa.Webhooks.{Webhook, user_created, State, deliver, request, create}
use multi_tenant_saas_gatewa.Webhooks.Delivery.{posted}
use multi_tenant_saas_gatewa.Webhooks.Tests.{R, L, up_from}
use multi_tenant_saas_gatewa.Http.Request.{Request}
use multi_tenant_saas_gatewa.Http.Tests.{request_of_ada, tokens_for_ada}
use multi_tenant_saas_gatewa.Http.Middleware.{resolve_tenant, extract_subdomain, split_dots}
use multi_tenant_saas_gatewa.Http.Guards.{jwt_guard}
use multi_tenant_saas_gatewa.Controllers.{Context, admit, serve}
use multi_tenant_saas_gatewa.Controllers.Webhooks.{dispatch}
use multi_tenant_saas_gatewa.Dto.{Validators, Fields, single, list, text, number, ◌>>=◌}
use multi_tenant_saas_gatewa.Dto.Users.{create_user_dto, register_dto}
use multi_tenant_saas_gatewa.Dto.Tenants.{create_webhook_dto, is_slug}
use multi_tenant_saas_gatewa.Dto.Queries.{
  list_users_query, list_tenants_query, first_page, list_queries_refused,
}
use multi_tenant_saas_gatewa.Dto.Slugs.{is_word, join_hyphens, is_slug-join_hyphens}
use multi_tenant_saas_gatewa.Dto.Webhooks.{Call, posts, run}
use multi_tenant_saas_gatewa.Dto.Webhooks.Attempts.{run-deliver_bounded}
use Prim.Native.String

-- No value is converted, and texts are tested for being there.
abbrev lenient : Validators
lenient = record {
  convert = λ kind v. v;
  length = String.count;
  is_email = λ s. leb 1 (String.count s);
  is_url = λ s. leb 1 (String.count s);
  is_uuid = λ s. leb 1 (String.count s);
  is_uuid4 = λ s. leb 1 (String.count s);
  is_date_string = λ s. leb 1 (String.count s);
  problems = λ fields. "invalid" ∷ [];
}

abbrev second_page : Fields
second_page = ("page", single (text "2")) ∷ []

list_queries_refused_example :
    (list_users_query lenient second_page ≡ none)
    × (list_tenants_query lenient second_page ≡ none)
    × (list_users_query lenient [] ≡ some (first_page, record { q = none; status = none }))
    × (list_tenants_query lenient [] ≡ some (first_page, record { q = none; status = none }))
list_queries_refused_example = list_queries_refused lenient second_page (λ e. cc e)

is_slug-join_hyphens_example : (is_slug "acme-2" ≡ true) ↔ (
    (word : String) × (words : List String) × (all is_word (word ∷ words) ≡ true)
    × (join_hyphens (word ∷ words) ≡ "acme-2"))
is_slug-join_hyphens_example = is_slug-join_hyphens "acme-2"

two_hyphens : is_slug "acme--2" ≡ false
unfolding is_slug
two_hyphens = refl

-- Registration takes a password that the creation of a user refuses.
weak_password : Fields
weak_password =
    ("email", single (text "a@b"))
    ∷ ("name", single (text "Ada"))
    ∷ ("password", single (text "password"))
    ∷ []

rejects_weak : create_user_dto lenient weak_password ≡ none
unfolding create_user_dto weak_password ◌>>=◌ string_dec
rejects_weak = refl

registers_weak :
    register_dto lenient (("tenantId", single (text "acme")) ∷ weak_password)
    ≡ some (record { email = "a@b"; name = "Ada"; password = "password"; tenant_id = "acme" })
unfolding register_dto weak_password ◌>>=◌ string_dec
registers_weak = refl

abbrev body_with : ℕ → Fields
body_with n =
    ("url", single (text "https://acme"))
    ∷ ("events", list (text "user.created" ∷ []))
    ∷ ("maxRetries", single (number n))
    ∷ []

rejects_six : create_webhook_dto lenient (body_with 6) ≡ none
unfolding create_webhook_dto ◌>>=◌ string_dec
rejects_six = refl

abbrev context : Context
context = record { jwt = tokens_for_ada; secret = "s"; is_uuid = λ id. true }

unfoldable nothing_stored : State R
unfolding memory
nothing_stored = record { table = []; sent = [] }

abbrev one_post : List (Request × String × ℕ × Call)
one_post = (request_of_ada, "id", 9, posts (body_with 4) "00") ∷ []

abbrev created : Entity Webhook
created = record {
  base = record { id = "id"; created_at = 0; updated_at = 0; deleted_at = none };
  own = record {
    tenant_id = "acme";
    url = "https://acme";
    description = none;
    events = user_created ∷ [];
    secret = "whsec_00";
    is_active = true;
    max_retries = 4;
    delivery_count = 0;
    failure_count = 0;
    last_delivered_at = none;
  };
}

stored_webhook :
    L.row (run R (up_from 9) context lenient one_post nothing_stored).table "id" ≡ some created
unfolding run resolve_tenant extract_subdomain split_dots jwt_guard tokens_for_ada admit serve
    dispatch create_webhook_dto ◌>>=◌ memory memory-IsLawful nothing_stored string_dec concat create
stored_webhook = refl

nothing_there :
    (i : String) (w : Entity Webhook)
    → L.row nothing_stored.table i ≡ some w
    → (1 ≤ w.own.max_retries) × (w.own.max_retries ≤ 5)
unfolding nothing_stored memory memory-IsLawful
nothing_there i w h = absurd (ground (arith, h))

run-deliver_bounded_example :
    (1 ≤ created.own.max_retries)
    × (created.own.max_retries ≤ 5)
    × ((n : ℕ) × (n ≤ 5)
        × ((deliver R (up_from 9) created user_created "{}" (λ n. n + 7) nothing_stored).1.sent
            ≡ posted n (request R (up_from 9) created user_created "{}" 7) nothing_stored.sent))
run-deliver_bounded_example =
    run-deliver_bounded R L (up_from 9) context lenient one_post nothing_stored nothing_there "id"
      created stored_webhook user_created "{}" (λ n. n + 7) nothing_stored
