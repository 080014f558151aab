-- ===== src/ApiKeys.antt =====
-- src/modules/api-keys: api-keys.service.ts, its entity and its DTOs. The state of the service is the
-- table `api_keys`. HMAC-SHA256 and the random bytes of Node's `crypto` are parameters: `hmac` and
-- the hexadecimal texts that an operation draws. Dates are milliseconds; each reading of the clock
-- is an argument.
pub mod Data
pub mod Steps
pub mod Limit
pub mod Concurrent
pub mod Race
pub mod Alone
pub mod Tenancy
pub mod Validation
pub mod Rotation
mod Tests
pub use Data.{
  ApiKeyStatus, active, revoked, expired, ApiKey, CreateApiKeyDto, UpdateApiKeyDto,
  ApiKeyResponseDto,
}
use multi_tenant_saas_gatewa.Common.{
  ℕ, ◌+◌, ◌-◌, String, ◌≡◌, Bool, true, false, not, ◌&&◌, Option, none, some, List, [], ◌∷◌, ◌==◌,
  leb, ltb, if◌then◌else◌, concat, decimal, get_or, truthy, is_some, map,
}
use multi_tenant_saas_gatewa.Common.Outcome.{
  Result, ok, throw, M, pure, raise, gets, after, ◌>>=◌, ◌>>◌, refuse_if, or_throw, written,
  bad_request, not_found, error, Exception,
}
use multi_tenant_saas_gatewa.Database.{Entity, Where, Repository}

abbrev pub is_active : ApiKeyStatus → Bool
is_active active = true
is_active revoked = false
is_active expired = false

pub record Config : Type 0 where
  pub max_active : ℕ
  pub hash_secret : String
  pub last_used_update_interval : ℕ

-- The constructor, with what the configuration holds under its three keys.
unfoldable pub construct : Option ℕ → Option String → Option ℕ → Result Config
construct max_active hash_secret interval =
    if get_or hash_secret "" == ""
    then throw (error "API_KEY_HASH_SECRET environment variable is not set")
    else ok (record {
      max_active = get_or max_active 10;
      hash_secret = get_or hash_secret "";
      last_used_update_interval = get_or interval 3600000;
    })

unfoldable pub map_to_response_dto : Entity ApiKey → Option String → ApiKeyResponseDto
map_to_response_dto k plain_secret = record {
  id = k.id;
  tenant_id = k.own.tenant_id;
  name = k.own.name;
  key = k.own.key;
  secret = plain_secret;
  status = k.own.status;
  scopes = k.own.scopes;
  expires_at = k.own.expires_at;
  last_used_at = k.own.last_used_at;
  created_at = k.created_at;
  updated_at = k.updated_at;
}

-- The `where` objects.
abbrev pub active_of : String → Where ApiKey
active_of tenant_id k = k.own.tenant_id == tenant_id && is_active k.own.status

abbrev pub with_key : String → Where ApiKey
with_key key k = k.own.key == key

abbrev pub with_id : String → String → Where ApiKey
with_id tenant_id key_id k = k.id == key_id && k.own.tenant_id == tenant_id

abbrev pub key_not_found : Exception
key_not_found = not_found "API key not found"

-- The assignments of `update`: an empty name, or a field that is missing, changes nothing.
unfoldable pub apply_update : UpdateApiKeyDto → ApiKey → ApiKey
apply_update dto k = record k {
  name = get_or (truthy dto.name) k.name;
  scopes = get_or dto.scopes k.scopes;
  expires_at = elim dto.expires_at [ none ↦ k.expires_at | some at ↦ some at ];
}

-- The entity that `create` saves.
abbrev pub new_key : String → CreateApiKeyDto → String → String → ApiKey
new_key tenant_id dto key hashed_secret = record {
  tenant_id = tenant_id;
  name = dto.name;
  key = key;
  secret = hashed_secret;
  status = active;
  expires_at = dto.expires_at;
  last_used_at = none;
  scopes = get_or dto.scopes [];
}

module _ (hmac : String → String → String) (R : Repository ApiKey) (cfg : Config) where
  -- `hashSecret`.
  abbrev pub hash_secret : String → String
  hash_secret secret = hmac cfg.hash_secret secret

  -- `generateKeyAndSecret`: key, secret, hashed secret.
  unfoldable pub generate_key_and_secret : String → String → String × String × String
  generate_key_and_secret key_hex secret_hex =
      (concat ("sk_" ∷ key_hex ∷ []), secret_hex, hash_secret secret_hex)

  abbrev pub insert : ApiKey → M R.Table (Entity ApiKey)
  insert k t = written (λ t' _. t') (R.insert k t) t

  abbrev pub save : Entity ApiKey → M R.Table (Entity ApiKey)
  save k t = written (λ t' _. t') (R.save k t) t

  abbrev pub remove : Entity ApiKey → M R.Table (Unit {0})
  remove k t = written (λ t' _. t') (R.remove k t) t

  abbrev pub load : String → String → M R.Table (Entity ApiKey)
  load tenant_id key_id t = or_throw (R.find_one (with_id tenant_id key_id) t) key_not_found t

  unfoldable pub create : String → CreateApiKeyDto → String → String → M R.Table ApiKeyResponseDto
  unfolding generate_key_and_secret
  create tenant_id dto key_hex secret_hex = do
    existing_keys ← gets (R.count (active_of tenant_id))
    refuse_if (leb cfg.max_active existing_keys) (
        bad_request (
          concat (
            "Maximum number of active API keys ("
            ∷ decimal cfg.max_active
            ∷ ") reached for this tenant"
            ∷ [])))
    let generated = generate_key_and_secret key_hex secret_hex
    existing_key ← gets (R.find_one (with_key generated.0))
    refuse_if (is_some existing_key) (bad_request "API key already exists, please try again")
    saved ← insert (new_key tenant_id dto generated.0 generated.2)
    pure (map_to_response_dto saved (some generated.1))

  unfoldable pub find_all : String → M R.Table (List ApiKeyResponseDto)
  find_all tenant_id = do
    keys ← gets (R.find_desc (λ k. k.own.tenant_id == tenant_id))
    pure (map (λ k. map_to_response_dto k none) keys)

  unfoldable pub find_one : String → String → M R.Table ApiKeyResponseDto
  find_one tenant_id key_id = do k ← load tenant_id key_id; pure (map_to_response_dto k none)

  unfoldable pub update : String → String → UpdateApiKeyDto → M R.Table ApiKeyResponseDto
  unfolding apply_update
  update tenant_id key_id dto = do
    k ← load tenant_id key_id
    updated ← save (record k { own = apply_update dto k.own })
    pure (map_to_response_dto updated none)

  unfoldable pub revoke : String → String → M R.Table (Unit {0})
  revoke tenant_id key_id = do
    k ← load tenant_id key_id
    _ ← save (record k { own = record (k.own) { status = revoked } })
    pure tt

  unfoldable pub delete : String → String → M R.Table (Unit {0})
  delete tenant_id key_id = do k ← load tenant_id key_id; remove k

  unfoldable pub rotate : String → String → String → String → M R.Table ApiKeyResponseDto
  unfolding generate_key_and_secret
  rotate tenant_id key_id key_hex secret_hex = do
    k ← load tenant_id key_id
    let generated = generate_key_and_secret key_hex secret_hex
    updated ← save (record k { own = record (k.own) { secret = generated.2 } })
    pure (map_to_response_dto updated (some generated.1))

  -- `now.getTime() - lastUsedAt.getTime() > interval`, over the integers.
  unfoldable pub should_update_last_used : Option ℕ → ℕ → Bool
  should_update_last_used none now = true
  should_update_last_used (some last_used_at) now =
      ltb (last_used_at + cfg.last_used_update_interval) now

  -- `apiKey.expiresAt && apiKey.expiresAt < new Date()`.
  abbrev pub is_expired : Option ℕ → ℕ → Bool
  is_expired none now = false
  is_expired (some expires_at) now = ltb expires_at now

  expire : Entity ApiKey → M R.Table (Option (Entity ApiKey))
  expire k = do _ ← save (record k { own = record (k.own) { status = expired } }); pure none

  touch : Entity ApiKey → ℕ → ℕ → M R.Table (Option (Entity ApiKey))
  touch k asked now =
      if should_update_last_used k.own.last_used_at asked
      then (do
        saved ← save (record k { own = record (k.own) { last_used_at = some now } })
        pure (some saved))
      else pure (some k)

  check : Entity ApiKey → String → ℕ → ℕ → ℕ → M R.Table (Option (Entity ApiKey))
  check k secret expiry_now asked now =
      if not (is_active k.own.status)
      then pure none
      else if is_expired k.own.expires_at expiry_now
      then expire k
      else if not (hash_secret secret == k.own.secret)
      then pure none
      else touch k asked now

  -- The three readings of the clock are those of the test for expiry, of `shouldUpdateLastUsed`, and
  -- of the new `lastUsedAt`.
  unfoldable pub validate_api_key : String → String → ℕ → ℕ → ℕ → M R.Table (Option (Entity ApiKey))
  unfolding expire touch check should_update_last_used
  validate_api_key key secret expiry_now asked now t = elim (R.find_one (with_key key) t) [
    | none ↦ (ok none, t)
    | some k ↦ check k secret expiry_now asked now t
  ]
