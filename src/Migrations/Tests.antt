-- ===== src/Migrations/Tests.antt =====
-- Runs of the migrations on concrete databases.
use multi_tenant_saas_gatewa.Common.{
  ◌≡◌, refl, false, Option, none, some, List, [], ◌∷◌, ◌++◌, String, string_dec, if◌then◌else◌,
}
use multi_tenant_saas_gatewa.Migrations.{
  run, execute, Catalogue, Statement, Table, uuid, integer, required, primary_key, insert_into,
  is_table, on_some,
}
use multi_tenant_saas_gatewa.Migrations.Frame.{separate}
use multi_tenant_saas_gatewa.Migrations.Initial.{create_initial_schema}
use multi_tenant_saas_gatewa.Migrations.Later.{add_user_roles}
use multi_tenant_saas_gatewa.Migrations.Revert.{both, first_two, second, third, whole, revert-up}

-- A database with the table of another program.
abbrev shared_database : Catalogue
shared_database = record {
  types = record { name = "mood"; labels = "sad" ∷ "happy" ∷ [] } ∷ [];
  tables =
      record {
        name = "invoices";
        columns = required "id" uuid ∷ required "total" integer ∷ [];
        constraints = primary_key ("id" ∷ []) ∷ [];
        rows = ("1" ∷ "250" ∷ []) ∷ [];
      }
      ∷ [];
  indexes =
      record {
        name = "IDX_invoices_total";
        table = "invoices";
        columns = "total" ∷ [];
        is_unique = false;
      }
      ∷ [];
}

revert-up_example :
    (run (both create_initial_schema) shared_database ≡ some shared_database)
    × ((run second shared_database ≡ run create_initial_schema.up shared_database)
        × ((run third shared_database ≡ run first_two shared_database)
            × (run whole shared_database ≡ some shared_database)))
unfolding separate string_dec
revert-up_example = revert-up shared_database refl

-- A second run is refused.
twice : run (create_initial_schema.up ++ create_initial_schema.up) shared_database ≡ none
unfolding run execute string_dec
twice = refl

abbrev rows_of : String → List Table → List (List String)
rows_of n [] = []
rows_of n (t ∷ rest) = if is_table n t then t.rows else rows_of n rest

abbrev permissions_after : List Statement → Option (List (List String))
permissions_after sts =
    on_some (λ c. some (rows_of "permissions" c.tables)) (run sts shared_database)

-- A permission that was stored before the second migration is lost when it is reverted.
permissions_lost :
    permissions_after (
      create_initial_schema.up
      ++ (insert_into "permissions" (("reports" ∷ "read" ∷ "Read reports" ∷ []) ∷ [])
          ∷ both add_user_roles))
    ≡ some []
unfolding run execute string_dec
permissions_lost = refl

-- The first migration is refused where a table "tenants" is there already.
initialised_refused :
    run create_initial_schema.up (record {
      types = [];
      tables = record { name = "tenants"; columns = []; constraints = []; rows = [] } ∷ [];
      indexes = [];
    })
    ≡ none
unfolding run execute string_dec
initialised_refused = refl
