-- ===== src/Gateway.antt =====
-- What the services share: the repositories that are injected into them, the cache, the Kafka
-- client and bcrypt, and the state of all of these. Rows that the database itself removes by
-- `ON DELETE CASCADE` are not followed.
pub mod Memory
use multi_tenant_saas_gatewa.Common.{ℕ, String, ◌≡◌, Bool, true, Option, List, none}
use multi_tenant_saas_gatewa.Common.Outcome.{Result, M, written, ok, Exception}
use multi_tenant_saas_gatewa.Database.{Entity, Where, Repository}
use multi_tenant_saas_gatewa.Entities.{User, Tenant, Role, Permission, PasswordResetToken, Cached}
use multi_tenant_saas_gatewa.Redis
use multi_tenant_saas_gatewa.Redis.{CacheManager, CacheState}
use multi_tenant_saas_gatewa.Events.{Kafka}

-- `bcrypt.hash(password, rounds)` with the salt that it draws, and `bcrypt.compare`.
pub record Bcrypt : Type 0 where
  pub hash : String → ℕ → String → String
  pub compare : String → String → Bool

-- A password is accepted against its own hash.
pub record IsLawfulBcrypt (B : Bcrypt) : Type 0 where
  pub compare-hash :
      (salt : String) (rounds : ℕ) (password : String)
      → B.compare password (B.hash salt rounds password) ≡ true

pub record Gateway : Type 1 where
  pub users : Repository User
  pub tenants : Repository Tenant
  pub roles : Repository Role
  pub permissions : Repository Permission
  pub reset_tokens : Repository PasswordResetToken
  pub cache : CacheManager
  pub kafka : Kafka
  pub bcrypt : Bcrypt

pub record State (g : Gateway) : Type 0 where
  pub users : g.users.Table
  pub tenants : g.tenants.Table
  pub roles : g.roles.Table
  pub permissions : g.permissions.Table
  pub reset_tokens : g.reset_tokens.Table
  pub cache : CacheState g.cache
  pub bus : g.kafka.Bus

module _ (g : Gateway) where
  abbrev pub insert_user : User → M (State g) (Entity User)
  insert_user u s = written (λ t s. record s { users = t }) (g.users.insert u s.users) s

  abbrev pub save_user : Entity User → M (State g) (Entity User)
  save_user u s = written (λ t s. record s { users = t }) (g.users.save u s.users) s

  abbrev pub remove_user : Entity User → M (State g) (Unit {0})
  remove_user u s = written (λ t s. record s { users = t }) (g.users.remove u s.users) s

  -- A step of the cache service.
  abbrev pub on_cache : (CacheState g.cache → CacheState g.cache) → M (State g) (Unit {0})
  on_cache f s = (ok tt, record s { cache = f s.cache })

  -- A step of the event publisher.
  abbrev pub on_bus : M g.kafka.Bus (Unit {0}) → M (State g) (Unit {0})
  on_bus m s = let (r, b) = m s.bus in (r, record s { bus = b })

  -- The same where what it throws is caught and logged.
  abbrev pub on_bus_logged : M g.kafka.Bus (Unit {0}) → M (State g) (Unit {0})
  on_bus_logged m s = let (r, b) = m s.bus in (ok tt, record s { bus = b })

  abbrev pub insert_tenant : Tenant → M (State g) (Entity Tenant)
  insert_tenant x s = written (λ t s. record s { tenants = t }) (g.tenants.insert x s.tenants) s

  abbrev pub save_tenant : Entity Tenant → M (State g) (Entity Tenant)
  save_tenant x s = written (λ t s. record s { tenants = t }) (g.tenants.save x s.tenants) s

  abbrev pub remove_tenant : Entity Tenant → M (State g) (Unit {0})
  remove_tenant x s = written (λ t s. record s { tenants = t }) (g.tenants.remove x s.tenants) s

  abbrev pub insert_role : Role → M (State g) (Entity Role)
  insert_role x s = written (λ t s. record s { roles = t }) (g.roles.insert x s.roles) s

  abbrev pub remove_role : Entity Role → M (State g) (Unit {0})
  remove_role x s = written (λ t s. record s { roles = t }) (g.roles.remove x s.roles) s

  abbrev pub insert_token : PasswordResetToken → M (State g) (Entity PasswordResetToken)
  insert_token x s =
      written (λ t s. record s { reset_tokens = t }) (g.reset_tokens.insert x s.reset_tokens) s

  abbrev pub save_token : Entity PasswordResetToken → M (State g) (Entity PasswordResetToken)
  save_token x s =
      written (λ t s. record s { reset_tokens = t }) (g.reset_tokens.save x s.reset_tokens) s

  abbrev pub update_tokens :
      Where PasswordResetToken → (PasswordResetToken → PasswordResetToken) → M (State g) (Unit {0})
  update_tokens p f s =
      written (λ t s. record s { reset_tokens = t }) (g.reset_tokens.update p f s.reset_tokens) s
