-- ===== src/Lib.antt =====
-- Multi-tenant SaaS gateway: a NestJS backend in which tenants keep users, roles, API keys and
-- webhooks. Each service works on a table of PostgreSQL through TypeORM, and some keep copies in a
-- cache in Redis and send events to Kafka.
--
-- Parts and files:
-- - Common: the names that all modules use, tests on numbers and texts (Common/Tests), lists
--   (Common/Lists), and the monad of the handlers (Common/Outcome): a state, and an exception
--   that leaves what was written before it was thrown.
-- - Database: src/database/entities/base.entity.ts, and TypeORM's repositories as an interface:
--   the operations that the services call (`Repository`) and their documented behaviour
--   (`IsLawful`). Database/Laws has the cases of each operation, Database/Memory a table that
--   meets the laws.
-- - Entities: the columns of the other entities under src/database/entities, and the DTOs that
--   are cached.
-- - ApiKeys: src/modules/api-keys/api-keys.service.ts, one definition per method. ApiKeys/Steps
--   has what a call does to the table as a step relation; Limit, Tenancy, Validation and Rotation
--   are about histories of calls, about validateApiKey and about rotate. ApiKeys/Concurrent has
--   creates that run at the same time, one statement after the other; Race is about the limit
--   there, Alone about a create that nothing interrupts.
-- - Redis: src/modules/redis/cache.service.ts. The cache manager is an interface with laws on
--   what is read back. Redis/Keys is about the families of keys, Reads and Tracking about the
--   operations.
-- - Events: src/common/events/events.ts and src/common/services/event-publisher.service.ts.
-- - Gateway: the repositories, the cache, the Kafka client and bcrypt that the services share,
--   with the state of all of these; Gateway/Memory is one that runs.
-- - Users: src/modules/users/services/user.service.ts. Users/Steps has what a call does to the
--   table and to the cached users, Users/Cache and Users/Table are about histories of calls.
-- - Auth: the services under src/modules/auth/services. Auth/Login, Auth/Reset, Auth/Passwords
--   and Auth/Tokens are about login and refresh, about the reset of a password, about the logins
--   that follow a new password, and about the lifetime of a token.
-- - Profile: src/modules/profile/profile.service.ts; Profile/Cached is about the cached copy.
-- - Webhooks: src/modules/webhooks/webhook.service.ts. Webhooks/Delivery is about the retry loop
--   and the signature, Webhooks/Signatures about the signature at the receiver, Webhooks/Retries
--   about the number of its requests, Webhooks/Tenancy about the rows that an event touches.
-- - Rbac: src/modules/rbac/rbac.service.ts and rbac.guard.ts. Rbac/Grants and Rbac/Complete are
--   about the permissions that are collected, Rbac/Guard about the guard and the caches.
-- - Tenants: src/modules/tenants/services/tenant.service.ts, and Tenants/DefaultRoles
--   onboarding.service.ts beside it. Tenants/Slugs has what a call does to the table as a step
--   relation, Tenants/Onboarding is about the default roles and about a failure of the event.
-- - Http: what a request passes. Http/Request is what the source reads of one, Http/Middleware
--   has src/middleware/tenant.middleware.ts, src/modules/redis/custom-throttler.guard.ts and the
--   id of src/common/interceptors/logging.interceptor.ts, Http/Logging that interceptor with its
--   line, Http/Guards the strategies and guards of Passport, Http/Exceptions and Http/Filter the
--   errors and their answers under src/common, and Http/Pagination
--   src/common/dto/pagination.dto.ts. Http/Answers is about the answers, Http/Hosts about the
--   tenant that a host names.
-- - Audit: src/modules/audit/audit.service.ts and audit.interceptor.ts. Audit/Transparent is
--   about a handler with its audit, Audit/Query about the pages of the log.
-- - Controllers: the handlers of all controllers, one file for each, with the middleware, the
--   guards, the interceptor and the pipe in the order in which Nest runs them.
--   Controllers/Users/Tokens and Controllers/Users/Tenancy are about the tenants in the user
--   controller, Controllers/Auth/Session about a login and the requests that carry its token,
--   Controllers/Rbac/Lockout about the controller of the roles before anybody has a role.
-- - Config: src/config/validation.ts, what is accepted of the environment. Config/Options has
--   what the modules take from it (src/database/config, src/modules/kafka,
--   src/modules/auth/auth.module.ts, src/app.module.ts and src/main.ts), Config/Required is about
--   the variables that must be set, Config/Startup about a gateway that has started.
-- - Dto: the global ValidationPipe of src/main.ts and the rules of the DTOs under src/modules.
--   Dto/Users and Dto/Tenants have the bodies, Dto/Queries the queries of the lists; Dto/Slugs is
--   about the pattern of slugs, and Dto/Webhooks puts the pipe before the webhook controller,
--   with Dto/Webhooks/Attempts about the requests that a delivery then sends.
-- - Health: src/modules/health/health.service.ts, the two probes.
-- - Migrations: src/database/migrations, the statements of the three migrations (Initial, Later)
--   and what PostgreSQL documents them to do to the types, tables, constraints, indexes and rows;
--   Frame is about a database that holds other things too, Revert about `down` after `up`. The
--   functions that defaults call are taken to be there.
--
-- The modules called Data hold the DTOs and entities of their parent; those called Tests run the
-- definitions on concrete inputs.
--
-- Parameters: TypeORM, cache-manager, the Kafka client, bcrypt, JWT, Node's crypto, fetch and JSON
-- are not part of the repository. They are arguments, with laws where a theorem relies on them.
-- Each reading of the clock and each random text is an argument. Dates are milliseconds.
--
-- Loops: the retry loop of a delivery is recursion on the attempts that remain, so it ends.
-- `decimal` takes one more step than the value of its number, and a number has no more digits than
-- that.
--
-- An id is the text of a uuid as PostgreSQL writes it, in lower case: an id that a request gives in
-- upper case, which reaches the same row, is not among the inputs. An update through a DTO gives
-- the row and the answer apart, since the undefined properties of the DTO reach the answer but not
-- the row.
--
-- Not modelled: a query on a table that fails (writes may fail), rows that the database removes by
-- ON DELETE CASCADE, JSON columns, the expiry of cache entries, a null in the body of an update but
-- for webhooks, pages and limits of the audit log that are fractions, and interleavings of two
-- requests: a handler runs from start to end, and the deliveries of one event run one after the
-- other. ApiKeys/Concurrent alone has creates of API keys that overlap, between which the other
-- calls run alone. But for the webhooks, controllers take bodies as validated; a token is taken as
-- not expired. Wiring and the lines that services log are left out.
pub mod Common
pub mod Database
pub mod ApiKeys
pub mod Entities
pub mod Redis
pub mod Events
pub mod Gateway
pub mod Users
pub mod Auth
pub mod Profile
pub mod Webhooks
pub mod Rbac
pub mod Tenants
pub mod Http
pub mod Audit
pub mod Controllers
pub mod Health
pub mod Config
pub mod Dto
pub mod Migrations
