-- ===== src/Webhooks/Data.antt =====
-- src/modules/webhooks/dto, and src/database/entities/webhook.entity.ts: the data of the webhook service.
use multi_tenant_saas_gatewa.Common.{ℕ, String, Bool, Option, List}
use multi_tenant_saas_gatewa.Common.Outcome.{Result, Exception}

pub data WebhookEvent : Type 0 where
  tenant_created tenant_updated tenant_deleted : WebhookEvent
  user_created user_updated user_deleted : WebhookEvent
  api_key_created api_key_revoked : WebhookEvent

pub record Webhook : Type 0 where
  pub tenant_id : String
  pub url : String
  pub description : Option String
  pub events : List WebhookEvent
  pub secret : String
  pub is_active : Bool
  pub max_retries : ℕ
  pub delivery_count : ℕ
  pub failure_count : ℕ
  pub last_delivered_at : Option ℕ

pub record CreateWebhookDto : Type 0 where
  pub url : String
  pub description : Option String
  pub events : List WebhookEvent
  pub max_retries : Option ℕ

-- `null_column` says that a property other than the description is null, `no_description` that the
-- description is.
pub record UpdateWebhookDto : Type 0 where
  pub null_column : Bool
  pub no_description : Bool
  pub url : Option String
  pub description : Option String
  pub events : Option (List WebhookEvent)
  pub is_active : Option Bool
  pub max_retries : Option ℕ

pub record WebhookResponseDto : Type 0 where
  pub id : String
  pub tenant_id : String
  pub url : String
  pub description : Option String
  pub events : List WebhookEvent
  pub is_active : Bool
  pub max_retries : ℕ
  pub delivery_count : ℕ
  pub failure_count : ℕ
  pub last_delivered_at : Option ℕ
  pub created_at : ℕ
  pub updated_at : ℕ

-- The answer of an update: a field that the body does not name is undefined in it.
pub record UpdatedWebhook : Type 0 where
  pub id : String
  pub tenant_id : String
  pub url : Option String
  pub description : Option String
  pub events : Option (List WebhookEvent)
  pub is_active : Option Bool
  pub max_retries : Option ℕ
  pub delivery_count : ℕ
  pub failure_count : ℕ
  pub last_delivered_at : Option ℕ
  pub created_at : ℕ
  pub updated_at : ℕ

-- A request that `fetch` sends, and what comes of it: a status, or an error (the time-out too).
pub record Post : Type 0 where
  pub url : String
  pub event : String
  pub signature : String
  pub body : String

pub data Reply : Type 0 where
  status : ℕ → Reply
  rejected : Exception → Reply

-- `payload` is JSON text. `fetch post n` answers the attempt `n`, from 0, of a delivery.
pub record Net : Type 0 where
  pub stringify : String → String → ℕ → String
  pub hmac : String → String → String
  pub timing_safe_equal : String → String → Result Bool
  pub fetch : Post → ℕ → Reply
