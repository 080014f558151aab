-- ===== src/Webhooks.antt =====
-- src/modules/webhooks: webhook.service.ts, its DTOs, and src/database/entities/webhook.entity.ts. `fetch`,
-- the digests and the random bytes of Node's `crypto` and `JSON.stringify` are parameters. The state
-- is the table and the log of the requests that were sent. The deliveries of one event run one
-- after the other here.
pub mod Data
pub mod Delivery
pub mod Tenancy
pub mod Retries
pub mod Signatures
pub mod Tests
pub use Data.{
  WebhookEvent, tenant_created, tenant_updated, tenant_deleted, user_created, user_updated,
  user_deleted, api_key_created, api_key_revoked, Webhook, CreateWebhookDto, UpdateWebhookDto,
  WebhookResponseDto, UpdatedWebhook, Post, Reply, status, rejected, Net,
}
use multi_tenant_saas_gatewa.Common.{
  ℕ, zero, suc, ◌+◌, ◌-◌, String, ◌≡◌, Bool, true, false, not, ◌&&◌, ◌||◌, Option, none, some, List,
  [], ◌∷◌, ◌==◌, if◌then◌else◌, leb, ltb, concat, decimal, get_or, map, any, filter,
}
use multi_tenant_saas_gatewa.Common.Outcome.{
  Result, ok, throw, M, pure, raise, gets, after, ◌>>=◌, ◌>>◌, or_throw, refuse_if, written,
  bad_request, query_failed, not_found, Exception,
}
use multi_tenant_saas_gatewa.Database.{Entity, Where, Repository}

unfoldable pub event_name : WebhookEvent → String
event_name tenant_created = "tenant.created"
event_name tenant_updated = "tenant.updated"
event_name tenant_deleted = "tenant.deleted"
event_name user_created = "user.created"
event_name user_updated = "user.updated"
event_name user_deleted = "user.deleted"
event_name api_key_created = "api_key.created"
event_name api_key_revoked = "api_key.revoked"

unfoldable pub format_response : Entity Webhook → WebhookResponseDto
format_response w = record {
  id = w.id;
  tenant_id = w.own.tenant_id;
  url = w.own.url;
  description = w.own.description;
  events = w.own.events;
  is_active = w.own.is_active;
  max_retries = w.own.max_retries;
  delivery_count = w.own.delivery_count;
  failure_count = w.own.failure_count;
  last_delivered_at = w.own.last_delivered_at;
  created_at = w.created_at;
  updated_at = w.updated_at;
}

-- `response.ok`.
abbrev pub is_ok : ℕ → Bool
is_ok n = leb 200 n && leb n 299

-- The `try` block up to `fetch`'s answer: what it throws, if anything.
unfoldable pub refusal : Reply → Option Exception
refusal (rejected e) = some e
refusal (status n) =
    if is_ok n then none else some (bad_request (concat ("Webhook returned " ∷ decimal n ∷ [])))

-- `events.includes(event)`; events are strings.
abbrev pub subscribes : WebhookEvent → Entity Webhook → Bool
subscribes event w = any (λ e. event_name e == event_name event) w.own.events

abbrev pub generate_secret : String → String
generate_secret random_bytes = concat ("whsec_" ∷ random_bytes ∷ [])

abbrev pub with_id : String → String → Where Webhook
with_id tenant_id id w = w.id == id && w.own.tenant_id == tenant_id

abbrev pub missing : String → Exception
missing id = not_found (concat ("Webhook with ID '" ∷ id ∷ "' not found" ∷ []))

-- What PostgreSQL answers to a null in a column that must have a value.
abbrev pub null_violation : Exception
null_violation = query_failed (some "23502")

abbrev pub new_webhook : String → CreateWebhookDto → String → Webhook
new_webhook tenant_id dto secret = record {
  tenant_id = tenant_id;
  url = dto.url;
  description = dto.description;
  events = dto.events;
  secret = secret;
  is_active = true;
  max_retries = get_or dto.max_retries 3;
  delivery_count = 0;
  failure_count = 0;
  last_delivered_at = none;
}

-- The row after `Object.assign(webhook, dto)` and a save, which leaves undefined fields alone.
abbrev pub assign : UpdateWebhookDto → Webhook → Webhook
assign dto w = record w {
  url = get_or dto.url w.url;
  description =
      if dto.no_description
      then none
      else elim dto.description [ none ↦ w.description | some text ↦ some text ];
  events = get_or dto.events w.events;
  is_active = get_or dto.is_active w.is_active;
  max_retries = get_or dto.max_retries w.max_retries;
}

-- `formatResponse` of the saved entity, which has the undefined fields of the body.
unfoldable pub updated_response : UpdateWebhookDto → Entity Webhook → UpdatedWebhook
updated_response dto w = record {
  id = w.id;
  tenant_id = w.own.tenant_id;
  url = dto.url;
  description = dto.description;
  events = dto.events;
  is_active = dto.is_active;
  max_retries = dto.max_retries;
  delivery_count = w.own.delivery_count;
  failure_count = w.own.failure_count;
  last_delivered_at = w.own.last_delivered_at;
  created_at = w.created_at;
  updated_at = w.updated_at;
}

abbrev pub delivered : ℕ → Entity Webhook → Entity Webhook
delivered now w = record w {
  own = record (w.own) { delivery_count = w.own.delivery_count + 1; last_delivered_at = some now };
}

abbrev pub failed : Entity Webhook → Entity Webhook
failed w = record w { own = record (w.own) { failure_count = w.own.failure_count + 1 } }

pub record State (R : Repository Webhook) : Type 0 where
  pub table : R.Table
  pub sent : List Post

module _ (R : Repository Webhook) where
  abbrev pub save : Entity Webhook → M (State R) (Entity Webhook)
  save w s = written (λ t s. record s { table = t }) (R.save w s.table) s

  abbrev pub load : String → String → M (State R) (Entity Webhook)
  load tenant_id id = do
    found ← gets (λ s. R.find_one (with_id tenant_id id) s.table)
    or_throw found (missing id)

  unfoldable pub create : String → CreateWebhookDto → String → M (State R) WebhookResponseDto
  unfolding format_response
  create tenant_id dto random_bytes = do
    saved ← (λ s.
        written (λ t s. record s { table = t })
          (R.insert (new_webhook tenant_id dto (generate_secret random_bytes)) s.table) s)
    pure (format_response saved)

  unfoldable pub find_all : String → M (State R) (List WebhookResponseDto)
  find_all tenant_id =
      gets (λ s. map format_response (R.find_desc (λ w. w.own.tenant_id == tenant_id) s.table))

  unfoldable pub find_one : String → String → M (State R) WebhookResponseDto
  find_one tenant_id id = do w ← load tenant_id id; pure (format_response w)

  unfoldable pub update : String → String → UpdateWebhookDto → M (State R) UpdatedWebhook
  unfolding updated_response
  update tenant_id id dto = do
    w ← load tenant_id id
    refuse_if dto.null_column null_violation
    updated ← save (record w { own = assign dto w.own })
    pure (updated_response dto updated)

  unfoldable pub delete : String → String → M (State R) (Unit {0})
  delete tenant_id id = do
    w ← load tenant_id id
    (λ s. written (λ t s. record s { table = t }) (R.remove w s.table) s)

  unfoldable pub rotate_secret : String → String → String → M (State R) String
  rotate_secret tenant_id id random_bytes = do
    w ← load tenant_id id
    _ ← save (record w { own = record (w.own) { secret = generate_secret random_bytes } })
    pure (generate_secret random_bytes)

  -- What follows the loop.
  abbrev pub give_up : Entity Webhook → Option Exception → M (State R) (Unit {0})
  give_up w last_error = do
    _ ← save (failed w)
    elim last_error [ none ↦ pure tt | some e ↦ raise e ]

module _ (R : Repository Webhook) (net : Net) where
  unfoldable pub sign : String → String → String
  sign body secret = concat ("sha256=" ∷ net.hmac secret body ∷ [])

  unfoldable pub verify_signature : String → String → String → Result Bool
  unfolding sign
  verify_signature raw_body secret received = net.timing_safe_equal (sign raw_body secret) received

  -- `while (attempt < maxRetries)`, with `left` the attempts that remain. The counters are set on
  -- the loaded object before it is saved, so that they stay set when the save throws.
  unfoldable pub attempts :
      Post → (ℕ → ℕ) → ℕ → ℕ → Entity Webhook → Option Exception → M (State R) (Unit {0})
  attempts post now zero attempt w last_error s = give_up R w last_error s
  attempts post now (suc left) attempt w last_error s =
      let after_post : State R = record s { sent = post ∷ s.sent } in
      elim (refusal (net.fetch post attempt)) [
        | some e ↦ attempts post now left (suc attempt) w (some e) after_post
        | none ↦ elim (R.save (delivered (now (suc attempt)) w) s.table) [
          | ok saved ↦ (ok tt, record after_post { table = saved.1 })
          | throw e ↦
              attempts post now left (suc attempt) (delivered (now (suc attempt)) w) (some e)
                after_post
        ]
      ]

  unfoldable pub request : Entity Webhook → WebhookEvent → String → ℕ → Post
  unfolding sign
  request w event payload now =
      let body = net.stringify (event_name event) payload now in
      record {
        url = w.own.url;
        event = event_name event;
        signature = sign body w.own.secret;
        body = body;
      }

  -- The clock is read once for the body, and again after each answer that is no refusal.
  unfoldable pub deliver : Entity Webhook → WebhookEvent → String → (ℕ → ℕ) → M (State R) (Unit {0})
  unfolding attempts request
  deliver w event payload now =
      attempts (request w event payload (now 0)) now w.own.max_retries 0 w none

  -- `Promise.allSettled`: what a delivery throws is dropped. Each delivery reads the clock for itself.
  unfoldable pub deliver_all :
      List (Entity Webhook) → WebhookEvent → String → (String → ℕ → ℕ) → State R → State R
  unfolding deliver
  deliver_all [] event payload now s = s
  deliver_all (w ∷ ws) event payload now s =
      deliver_all ws event payload now (deliver w event payload (now w.id) s).1

  abbrev pub active_of : String → Where Webhook
  active_of tenant_id w = w.own.tenant_id == tenant_id && w.own.is_active

  unfoldable pub trigger :
      String → WebhookEvent → String → (String → ℕ → ℕ) → M (State R) (Unit {0})
  unfolding deliver_all
  trigger tenant_id event payload now s = (
    ok tt,
    deliver_all (filter (subscribes event) (R.find (active_of tenant_id) s.table)) event payload now
        s,
  )

  unfoldable pub test_delivery :
      String → String → WebhookEvent → String → (ℕ → ℕ) → M (State R) Bool
  unfolding deliver
  test_delivery tenant_id id event payload now = do
    w ← load R tenant_id id
    (λ s. elim ((deliver w event payload now s).0) [
      | ok _ ↦ (ok true, (deliver w event payload now s).1)
      | throw _ ↦ (ok false, (deliver w event payload now s).1)
    ])
