-- ===== src/Webhooks/Signatures.antt =====
-- The signature that a delivery carries, at the receiver.
use multi_tenant_saas_gatewa.Common.{ℕ, String, ◌≡◌, ◌≢◌, ◌⊎◌, true, false}
use multi_tenant_saas_gatewa.Common.Outcome.{ok, throw, Exception}
use multi_tenant_saas_gatewa.Database.{Repository}
use multi_tenant_saas_gatewa.Webhooks.{Webhook, Post, Net, verify_signature}

module _ (R : Repository Webhook) (net : Net) where
  -- What a receiver with the secret finds of a request: its signature passes, and of any received text
  -- only the signature itself does; another text of its byte length is answered with `false`, and one of
  -- another length throws.
  pub record Verifies (byte_length : String → ℕ) (secret received : String) (post : Post)
      : Type 0 where
    pub passes : verify_signature R net post.body secret post.signature ≡ ok true
    pub only :
        ((verify_signature R net post.body secret received ≡ ok true) × (received ≡ post.signature))
        ⊎ ((verify_signature R net post.body secret received ≡ ok false)
            × (received ≢ post.signature))
        ⊎ ((byte_length post.signature ≢ byte_length received)
            × ((e : Exception) × (verify_signature R net post.body secret received ≡ throw e)))
