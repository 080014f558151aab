-- ===== src/Migrations/Later.antt =====
-- src/database/migrations/1748000000000-AddUserRolesAndSystemPermissions.ts and
-- 1748200000000-AddWebhooksAndPasswordReset.ts.
use multi_tenant_saas_gatewa.Common.{true, List, [], ◌∷◌, String}
use multi_tenant_saas_gatewa.Migrations.{
  uuid, text, timestamp, boolean, integer, varchar, primary_key, foreign_key, Statement,
  create_table, add_constraint, insert_into, delete_from, drop_table, drop_table_if_exists,
  drop_index, Migration, nullable, required, defaulted, index_on,
}

abbrev pub create_user_roles : Statement
create_user_roles =
    create_table "user_roles" (required "userId" uuid ∷ required "roleId" uuid ∷ []) (
      primary_key ("userId" ∷ "roleId" ∷ [])
      ∷ foreign_key "FK_user_roles_userId" "userId" "users" "id" true
      ∷ foreign_key "FK_user_roles_roleId" "roleId" "roles" "id" true
      ∷ [])

abbrev pub system_permissions : List (List String)
system_permissions =
    ("tenants" ∷ "create" ∷ "Create new tenants" ∷ [])
    ∷ ("tenants" ∷ "read" ∷ "Read tenant information" ∷ [])
    ∷ ("tenants" ∷ "update" ∷ "Update tenant information" ∷ [])
    ∷ ("tenants" ∷ "delete" ∷ "Delete tenants" ∷ [])
    ∷ ("users" ∷ "create" ∷ "Create new users" ∷ [])
    ∷ ("users" ∷ "read" ∷ "Read user information" ∷ [])
    ∷ ("users" ∷ "update" ∷ "Update user information" ∷ [])
    ∷ ("users" ∷ "delete" ∷ "Delete users" ∷ [])
    ∷ ("api-keys" ∷ "create" ∷ "Create API keys" ∷ [])
    ∷ ("api-keys" ∷ "read" ∷ "Read API keys" ∷ [])
    ∷ ("api-keys" ∷ "update" ∷ "Update API keys" ∷ [])
    ∷ ("api-keys" ∷ "delete" ∷ "Delete API keys" ∷ [])
    ∷ ("api-keys" ∷ "rotate" ∷ "Rotate API key secrets" ∷ [])
    ∷ ("roles" ∷ "create" ∷ "Create roles" ∷ [])
    ∷ ("roles" ∷ "read" ∷ "Read roles" ∷ [])
    ∷ ("roles" ∷ "update" ∷ "Update roles" ∷ [])
    ∷ ("roles" ∷ "delete" ∷ "Delete roles" ∷ [])
    ∷ ("audit-logs" ∷ "read" ∷ "Read audit logs" ∷ [])
    ∷ []

abbrev pub add_user_roles : Migration
add_user_roles = record {
  name = "AddUserRolesAndSystemPermissions1748000000000";
  up =
      create_user_roles
      ∷ index_on "IDX_user_roles_userId" "user_roles" ("userId" ∷ [])
      ∷ index_on "IDX_user_roles_roleId" "user_roles" ("roleId" ∷ [])
      ∷ insert_into "permissions" system_permissions
      ∷ [];
  down =
      drop_index "IDX_user_roles_roleId"
      ∷ drop_index "IDX_user_roles_userId"
      ∷ drop_table "user_roles"
      ∷ delete_from "permissions"
      ∷ [];
}

abbrev pub create_webhooks : Statement
create_webhooks =
    create_table "webhooks"
      (defaulted "id" uuid "uuid_generate_v4()"
        ∷ defaulted "createdAt" timestamp "now()"
        ∷ defaulted "updatedAt" timestamp "now()"
        ∷ nullable "deletedAt" timestamp
        ∷ required "tenantId" uuid
        ∷ required "url" (varchar 500)
        ∷ nullable "description" (varchar 255)
        ∷ required "events" text
        ∷ required "secret" (varchar 255)
        ∷ defaulted "isActive" boolean "true"
        ∷ defaulted "maxRetries" integer "3"
        ∷ defaulted "deliveryCount" integer "0"
        ∷ defaulted "failureCount" integer "0"
        ∷ nullable "lastDeliveredAt" timestamp
        ∷ [])
      (primary_key ("id" ∷ []) ∷ [])

abbrev pub create_password_reset_tokens : Statement
create_password_reset_tokens =
    create_table "password_reset_tokens"
      (defaulted "id" uuid "uuid_generate_v4()"
        ∷ defaulted "createdAt" timestamp "now()"
        ∷ defaulted "updatedAt" timestamp "now()"
        ∷ nullable "deletedAt" timestamp
        ∷ required "userId" uuid
        ∷ required "tenantId" uuid
        ∷ required "token" (varchar 255)
        ∷ required "expiresAt" timestamp
        ∷ defaulted "used" boolean "false"
        ∷ [])
      (primary_key ("id" ∷ []) ∷ [])

abbrev pub add_webhooks : Migration
add_webhooks = record {
  name = "AddWebhooksAndPasswordReset1748200000000";
  up =
      create_webhooks
      ∷ index_on "IDX_webhooks_tenantId" "webhooks" ("tenantId" ∷ [])
      ∷ index_on "IDX_webhooks_isActive" "webhooks" ("isActive" ∷ [])
      ∷ add_constraint "webhooks" (foreign_key "FK_webhooks_tenant" "tenantId" "tenants" "id" true)
      ∷ create_password_reset_tokens
      ∷ index_on "IDX_prt_userId" "password_reset_tokens" ("userId" ∷ [])
      ∷ index_on "IDX_prt_token" "password_reset_tokens" ("token" ∷ [])
      ∷ index_on "IDX_prt_expiresAt" "password_reset_tokens" ("expiresAt" ∷ [])
      ∷ add_constraint "password_reset_tokens"
          (foreign_key "FK_prt_user" "userId" "users" "id" true)
      ∷ [];
  down = drop_table_if_exists "password_reset_tokens" ∷ drop_table_if_exists "webhooks" ∷ [];
}
