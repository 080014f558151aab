-- ===== src/Migrations/Initial.antt =====
-- src/database/migrations/1704969600000-CreateInitialSchema.ts.
use multi_tenant_saas_gatewa.Common.{true, false, [], ◌∷◌}
use multi_tenant_saas_gatewa.Migrations.{
  uuid, text, jsonb, timestamp, boolean, text_array, varchar, enum, primary_key, unique,
  foreign_key, Statement, create_type, create_table, create_index, drop_table, drop_type, Migration,
  nullable, required, defaulted, index_on,
}

abbrev pub create_tenants : Statement
create_tenants =
    create_table "tenants"
      (defaulted "id" uuid "gen_random_uuid()"
        ∷ required "name" (varchar 255)
        ∷ required "slug" (varchar 100)
        ∷ nullable "description" text
        ∷ defaulted "status" (enum "tenants_status_enum") "'ACTIVE'"
        ∷ nullable "website" (varchar 255)
        ∷ nullable "logo" (varchar 255)
        ∷ defaulted "metadata" jsonb "'{}'"
        ∷ defaulted "subscription" jsonb "'{\"maxUsers\":10,\"maxApiKeys\":5}'"
        ∷ defaulted "createdAt" timestamp "now()"
        ∷ defaulted "updatedAt" timestamp "now()"
        ∷ nullable "deletedAt" timestamp
        ∷ [])
      (primary_key ("id" ∷ []) ∷ unique ("slug" ∷ []) ∷ [])

abbrev pub create_users : Statement
create_users =
    create_table "users"
      (defaulted "id" uuid "gen_random_uuid()"
        ∷ required "tenantId" uuid
        ∷ required "email" (varchar 255)
        ∷ required "name" (varchar 255)
        ∷ required "passwordHash" (varchar 255)
        ∷ defaulted "status" (enum "users_status_enum") "'PENDING'"
        ∷ defaulted "emailVerified" boolean "false"
        ∷ nullable "emailVerifiedAt" timestamp
        ∷ nullable "lastLoginAt" timestamp
        ∷ defaulted "metadata" jsonb "'{}'"
        ∷ defaulted "createdAt" timestamp "now()"
        ∷ defaulted "updatedAt" timestamp "now()"
        ∷ nullable "deletedAt" timestamp
        ∷ [])
      (primary_key ("id" ∷ [])
        ∷ foreign_key "FK_users_tenantId" "tenantId" "tenants" "id" true
        ∷ [])

abbrev pub create_roles : Statement
create_roles =
    create_table "roles"
      (defaulted "id" uuid "gen_random_uuid()"
        ∷ required "tenantId" uuid
        ∷ required "name" (varchar 100)
        ∷ nullable "description" text
        ∷ defaulted "isSystem" boolean "false"
        ∷ defaulted "metadata" jsonb "'{}'"
        ∷ defaulted "createdAt" timestamp "now()"
        ∷ defaulted "updatedAt" timestamp "now()"
        ∷ nullable "deletedAt" timestamp
        ∷ nullable "ownerId" uuid
        ∷ [])
      (primary_key ("id" ∷ [])
        ∷ foreign_key "FK_roles_tenantId" "tenantId" "tenants" "id" true
        ∷ foreign_key "FK_roles_ownerId" "ownerId" "users" "id" false
        ∷ [])

abbrev pub create_permissions : Statement
create_permissions =
    create_table "permissions"
      (defaulted "id" uuid "gen_random_uuid()"
        ∷ required "resource" (varchar 100)
        ∷ required "action" (varchar 50)
        ∷ nullable "description" text
        ∷ defaulted "isActive" boolean "true"
        ∷ defaulted "createdAt" timestamp "now()"
        ∷ defaulted "updatedAt" timestamp "now()"
        ∷ nullable "deletedAt" timestamp
        ∷ [])
      (primary_key ("id" ∷ []) ∷ [])

abbrev pub create_role_permissions : Statement
create_role_permissions =
    create_table "role_permissions" (required "roleId" uuid ∷ required "permissionId" uuid ∷ []) (
      primary_key ("roleId" ∷ "permissionId" ∷ [])
      ∷ foreign_key "FK_role_permissions_roleId" "roleId" "roles" "id" true
      ∷ foreign_key "FK_role_permissions_permissionId" "permissionId" "permissions" "id" true
      ∷ [])

abbrev pub create_api_keys : Statement
create_api_keys =
    create_table "api_keys"
      (defaulted "id" uuid "gen_random_uuid()"
        ∷ required "tenantId" uuid
        ∷ required "name" (varchar 255)
        ∷ required "key" (varchar 255)
        ∷ required "secret" text
        ∷ defaulted "status" (enum "api_keys_status_enum") "'ACTIVE'"
        ∷ nullable "expiresAt" timestamp
        ∷ nullable "lastUsedAt" timestamp
        ∷ defaulted "scopes" text_array "'{}'"
        ∷ defaulted "metadata" jsonb "'{}'"
        ∷ defaulted "createdAt" timestamp "now()"
        ∷ defaulted "updatedAt" timestamp "now()"
        ∷ nullable "deletedAt" timestamp
        ∷ [])
      (primary_key ("id" ∷ [])
        ∷ unique ("key" ∷ [])
        ∷ foreign_key "FK_api_keys_tenantId" "tenantId" "tenants" "id" true
        ∷ unique ("tenantId" ∷ "name" ∷ [])
        ∷ [])

abbrev pub create_audit_logs : Statement
create_audit_logs =
    create_table "audit_logs"
      (defaulted "id" uuid "gen_random_uuid()"
        ∷ required "tenantId" uuid
        ∷ nullable "userId" uuid
        ∷ required "action" (varchar 100)
        ∷ required "resourceType" (varchar 50)
        ∷ nullable "resourceId" uuid
        ∷ defaulted "changes" jsonb "'{}'"
        ∷ required "status" (varchar 50)
        ∷ nullable "errorMessage" text
        ∷ nullable "ipAddress" (varchar 50)
        ∷ nullable "userAgent" (varchar 500)
        ∷ defaulted "metadata" jsonb "'{}'"
        ∷ defaulted "createdAt" timestamp "now()"
        ∷ defaulted "updatedAt" timestamp "now()"
        ∷ nullable "deletedAt" timestamp
        ∷ [])
      (primary_key ("id" ∷ [])
        ∷ foreign_key "FK_audit_logs_tenantId" "tenantId" "tenants" "id" true
        ∷ [])

abbrev pub create_initial_schema : Migration
create_initial_schema = record {
  name = "CreateInitialSchema1704969600000";
  up =
      create_type "tenants_status_enum" ("ACTIVE" ∷ "INACTIVE" ∷ "SUSPENDED" ∷ "ARCHIVED" ∷ [])
      ∷ create_type "users_status_enum" ("ACTIVE" ∷ "INACTIVE" ∷ "PENDING" ∷ "ARCHIVED" ∷ [])
      ∷ create_type "api_keys_status_enum" ("ACTIVE" ∷ "REVOKED" ∷ "EXPIRED" ∷ [])
      ∷ create_tenants
      ∷ index_on "IDX_tenants_slug" "tenants" ("slug" ∷ [])
      ∷ index_on "IDX_tenants_status" "tenants" ("status" ∷ [])
      ∷ create_users
      ∷ index_on "IDX_users_tenantId" "users" ("tenantId" ∷ [])
      ∷ index_on "IDX_users_email" "users" ("email" ∷ [])
      ∷ create_index (record {
        name = "IDX_users_tenantId_email";
        table = "users";
        columns = "tenantId" ∷ "email" ∷ [];
        is_unique = true;
      })
      ∷ create_roles
      ∷ index_on "IDX_roles_tenantId" "roles" ("tenantId" ∷ [])
      ∷ index_on "IDX_roles_tenantId_name" "roles" ("tenantId" ∷ "name" ∷ [])
      ∷ create_permissions
      ∷ index_on "IDX_permissions_resource" "permissions" ("resource" ∷ [])
      ∷ index_on "IDX_permissions_action" "permissions" ("action" ∷ [])
      ∷ create_role_permissions
      ∷ create_api_keys
      ∷ index_on "IDX_api_keys_tenantId" "api_keys" ("tenantId" ∷ [])
      ∷ index_on "IDX_api_keys_key" "api_keys" ("key" ∷ [])
      ∷ create_audit_logs
      ∷ index_on "IDX_audit_logs_tenantId" "audit_logs" ("tenantId" ∷ [])
      ∷ index_on "IDX_audit_logs_userId" "audit_logs" ("userId" ∷ [])
      ∷ index_on "IDX_audit_logs_action" "audit_logs" ("action" ∷ [])
      ∷ index_on "IDX_audit_logs_createdAt" "audit_logs" ("createdAt" ∷ [])
      ∷ [];
  down =
      drop_table "audit_logs"
      ∷ drop_table "role_permissions"
      ∷ drop_table "api_keys"
      ∷ drop_table "permissions"
      ∷ drop_table "roles"
      ∷ drop_table "users"
      ∷ drop_table "tenants"
      ∷ drop_type "api_keys_status_enum"
      ∷ drop_type "users_status_enum"
      ∷ drop_type "tenants_status_enum"
      ∷ [];
}
