-- ===== src/Events.antt =====
-- src/common/events/events.ts and src/common/services/event-publisher.service.ts. The Kafka client is a
-- parameter: `emit` puts a message on a topic, or throws.
use multi_tenant_saas_gatewa.Common.{ℕ, String, Option}
use multi_tenant_saas_gatewa.Common.Outcome.{Result, M, written}

pub data TenantEvent : Type 0 where
  created updated deleted : TenantEvent

pub data UserEvent : Type 0 where
  created updated deleted : UserEvent

pub record TenantCreatedEvent : Type 0 where
  pub tenant_id : String
  pub name : String
  pub slug : String
  pub created_at : ℕ

pub record TenantUpdatedEvent : Type 0 where
  pub tenant_id : String
  pub name : Option String
  pub slug : Option String
  pub updated_at : ℕ

-- `tenantId` is undefined where the entity has been removed before: `remove` clears its id.
pub record TenantDeletedEvent : Type 0 where
  pub tenant_id : Option String
  pub deleted_at : ℕ

pub record UserCreatedEvent : Type 0 where
  pub user_id : String
  pub email : String
  pub name : String
  pub tenant_id : String
  pub created_at : ℕ

pub record UserUpdatedEvent : Type 0 where
  pub user_id : String
  pub tenant_id : String
  pub updated_at : ℕ

pub record UserDeletedEvent : Type 0 where
  pub user_id : String
  pub tenant_id : String
  pub deleted_at : ℕ

pub data Payload : Type 0 where
  tenant_created : TenantCreatedEvent → Payload
  tenant_updated : TenantUpdatedEvent → Payload
  tenant_deleted : TenantDeletedEvent → Payload
  user_created : UserCreatedEvent → Payload
  user_updated : UserUpdatedEvent → Payload
  user_deleted : UserDeletedEvent → Payload

-- `TenantEventEnvelope` and `UserEventEnvelope`.
pub data Envelope : Type 0 where
  of_tenant : TenantEvent → Payload → ℕ → Envelope
  of_user : UserEvent → Payload → ℕ → Envelope

pub record Kafka : Type 1 where
  pub Bus : Type 0
  pub emit : String → Envelope → Bus → Result (Unit {0} × Bus)

module _ (K : Kafka) where
  -- `publishToTenant`: what `emit` throws is logged and thrown again.
  unfoldable pub publish_to_tenant : TenantEvent → Payload → ℕ → M K.Bus (Unit {0})
  publish_to_tenant event payload now bus =
      written (λ b _. b) (K.emit "tenant.events" (of_tenant event payload now) bus) bus

  unfoldable pub publish_to_user : UserEvent → Payload → ℕ → M K.Bus (Unit {0})
  publish_to_user event payload now bus =
      written (λ b _. b) (K.emit "user.events" (of_user event payload now) bus) bus

  unfoldable pub publish_tenant_created : TenantCreatedEvent → ℕ → M K.Bus (Unit {0})
  unfolding publish_to_tenant
  publish_tenant_created e = publish_to_tenant TenantEvent.created (tenant_created e)

  unfoldable pub publish_tenant_updated : TenantUpdatedEvent → ℕ → M K.Bus (Unit {0})
  unfolding publish_to_tenant
  publish_tenant_updated e = publish_to_tenant TenantEvent.updated (tenant_updated e)

  unfoldable pub publish_tenant_deleted : TenantDeletedEvent → ℕ → M K.Bus (Unit {0})
  unfolding publish_to_tenant
  publish_tenant_deleted e = publish_to_tenant TenantEvent.deleted (tenant_deleted e)

  unfoldable pub publish_user_created : UserCreatedEvent → ℕ → M K.Bus (Unit {0})
  unfolding publish_to_user
  publish_user_created e = publish_to_user UserEvent.created (user_created e)

  unfoldable pub publish_user_updated : UserUpdatedEvent → ℕ → M K.Bus (Unit {0})
  unfolding publish_to_user
  publish_user_updated e = publish_to_user UserEvent.updated (user_updated e)

  unfoldable pub publish_user_deleted : UserDeletedEvent → ℕ → M K.Bus (Unit {0})
  unfolding publish_to_user
  publish_user_deleted e = publish_to_user UserEvent.deleted (user_deleted e)

-- The part of `ClientKafka` that the start of the service calls.
pub record KafkaConnection : Type 1 where
  pub Client : Type 0
  pub subscribe_to_response_of : String → Client → Client
  pub connect : Client → Result (Unit {0}) × Client

-- `onModuleInit`: where `connect` throws, the application does not start.
unfoldable pub on_module_init : (K : KafkaConnection) → M K.Client (Unit {0})
on_module_init K client =
    K.connect
      (K.subscribe_to_response_of "user.events" (K.subscribe_to_response_of "tenant.events" client))
