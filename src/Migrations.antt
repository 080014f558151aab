-- ===== src/Migrations.antt =====
-- src/database/migrations: the statements of each migration, and what PostgreSQL documents them to do
-- to the catalogue. `none` is a statement that the database refuses. Left out: the indexes that
-- primary keys and unique constraints bring, the names of constraints but foreign keys, the functions
-- that defaults call, and the tests on rows.
pub mod Initial
pub mod Later
mod Lists
pub mod Frame
pub mod Revert
pub mod Tests
use multi_tenant_saas_gatewa.Common.{
  ℕ, String, Bool, true, false, not, ◌&&◌, ◌||◌, Option, none, some, List, [], ◌∷◌, ◌++◌, ◌==◌, map,
  any, all, filter, if◌then◌else◌,
}

pub data ColumnType : Type 0 where
  uuid text jsonb timestamp boolean integer text_array : ColumnType
  varchar : ℕ → ColumnType
  enum : String → ColumnType

pub record Column : Type 0 where
  pub name : String
  pub type : ColumnType
  pub not_null : Bool
  pub default : Option String

pub data Constraint : Type 0 where
  primary_key : List String → Constraint
  unique : List String → Constraint
  -- The name, the column, the table and column that it refers to, and ON DELETE CASCADE.
  foreign_key : String → String → String → String → Bool → Constraint

pub record Table : Type 0 where
  pub name : String
  pub columns : List Column
  pub constraints : List Constraint
  -- What the statements gave for each row.
  pub rows : List (List String)

pub record Index : Type 0 where
  pub name : String
  pub table : String
  pub columns : List String
  pub is_unique : Bool

pub record EnumType : Type 0 where
  pub name : String
  pub labels : List String

pub data Statement : Type 0 where
  create_type : String → List String → Statement
  create_table : String → List Column → List Constraint → Statement
  create_index : Index → Statement
  -- ALTER TABLE … ADD CONSTRAINT
  add_constraint : String → Constraint → Statement
  insert_into : String → List (List String) → Statement
  delete_from : String → Statement
  drop_table : String → Statement
  drop_table_if_exists : String → Statement
  drop_type : String → Statement
  drop_index : String → Statement

pub record Catalogue : Type 0 where
  pub types : List EnumType
  pub tables : List Table
  pub indexes : List Index

abbrev pub is_table : String → Table → Bool
is_table n t = t.name == n

abbrev pub is_index : String → Index → Bool
is_index n i = i.name == n

abbrev pub is_type : String → EnumType → Bool
is_type n e = e.name == n

abbrev pub is_column : String → Column → Bool
is_column n c = c.name == n

abbrev pub has_columns : List String → Table → Bool
has_columns names t = all (λ n. any (is_column n) t.columns) names

-- The column has the type.
abbrev pub typed : String → ColumnType → Bool
typed n (enum e) = e == n
typed n _ = false

abbrev pub uses : String → Table → Bool
uses n t = any (λ c. typed n c.type) t.columns

-- The constraint refers to the table.
abbrev pub points_to : String → Constraint → Bool
points_to n (foreign_key name column table target cascade) = table == n
points_to n _ = false

abbrev pub refers_to : String → Table → Bool
refers_to n t = any (points_to n) t.constraints

-- The type of a column is known.
abbrev pub known_type : List EnumType → ColumnType → Bool
known_type types (enum e) = any (is_type e) types
known_type types _ = true

-- The columns of the constraint are among those of its table.
abbrev pub fits : List Column → Constraint → Bool
fits columns (primary_key names) = all (λ n. any (is_column n) columns) names
fits columns (unique names) = all (λ n. any (is_column n) columns) names
fits columns (foreign_key name column table target cascade) = any (is_column column) columns

-- The constraint makes the column a key by itself.
abbrev pub key_on : String → Constraint → Bool
key_on n (primary_key (m ∷ [])) = m == n
key_on n (unique (m ∷ [])) = m == n
key_on n _ = false

abbrev pub is_key : String → Table → Bool
is_key n t = any (key_on n) t.constraints

-- The table that a constraint refers to is there, and the column is a key of it.
abbrev pub resolves : List Table → Constraint → Bool
resolves tables (foreign_key name column table target cascade) =
    any (λ t. is_table table t && is_key target t) tables
resolves tables _ = true

-- Tables and indexes share their names.
abbrev pub taken : String → Catalogue → Bool
taken n c = any (is_table n) c.tables || any (is_index n) c.indexes

abbrev pub change : String → (Table → Table) → List Table → List Table
change n f tables = map (λ t. if is_table n t then f t else t) tables

abbrev pub unless : {A : Type 0} → Bool → A → Option A
unless b a = if b then none else some a

abbrev pub without_table : String → Catalogue → Catalogue
without_table n c = record c {
  tables = filter (λ t. not (is_table n t)) c.tables;
  indexes = filter (λ i. not (i.table == n)) c.indexes;
}

-- No other table refers to the one that is dropped.
abbrev pub free_to_drop : String → Catalogue → Bool
free_to_drop n c = not (any (λ t. not (is_table n t) && refers_to n t) c.tables)

unfoldable pub execute : Statement → Catalogue → Option Catalogue
execute (create_type n labels) c =
    unless (any (is_type n) c.types)
      (record c { types = record { name = n; labels = labels } ∷ c.types })
execute (create_table n columns constraints) c =
    unless
      (taken n c
        || not (all (λ k. known_type c.types k.type) columns)
        || not (all (resolves c.tables) constraints)
        || not (all (fits columns) constraints))
      (record c {
        tables =
            record { name = n; columns = columns; constraints = constraints; rows = [] } ∷ c.tables;
      })
execute (create_index i) c =
    unless
      (taken i.name c || not (any (λ t. is_table i.table t && has_columns i.columns t) c.tables))
      (record c { indexes = i ∷ c.indexes })
execute (add_constraint n k) c =
    unless (not (any (λ t. is_table n t && fits t.columns k) c.tables) || not (resolves c.tables k))
      (record c { tables = change n (λ t. record t { constraints = k ∷ t.constraints }) c.tables })
execute (insert_into n rows) c =
    unless (not (any (is_table n) c.tables))
      (record c { tables = change n (λ t. record t { rows = t.rows ++ rows }) c.tables })
execute (delete_from n) c =
    unless (not (any (is_table n) c.tables))
      (record c { tables = change n (λ t. record t { rows = [] }) c.tables })
execute (drop_table n) c =
    unless (not (any (is_table n) c.tables && free_to_drop n c)) (without_table n c)
execute (drop_table_if_exists n) c =
    if any (is_table n) c.tables
    then unless (not (free_to_drop n c)) (without_table n c)
    else some c
execute (drop_type n) c =
    unless (not (any (is_type n) c.types) || any (uses n) c.tables)
      (record c { types = filter (λ e. not (is_type n e)) c.types })
execute (drop_index n) c =
    unless (not (any (is_index n) c.indexes))
      (record c { indexes = filter (λ i. not (is_index n i)) c.indexes })

abbrev pub on_some : {A B : Type 0} → (A → Option B) → Option A → Option B
on_some f none = none
on_some f (some a) = f a

-- The statements of a migration, one after the other; the first that is refused ends it.
unfoldable pub run : List Statement → Catalogue → Option Catalogue
unfolding execute
run [] c = some c
run (st ∷ rest) c = on_some (run rest) (execute st c)

-- `MigrationInterface`
pub record Migration : Type 0 where
  pub name : String
  pub up : List Statement
  pub down : List Statement

-- Columns as the migrations write them.
abbrev pub nullable : String → ColumnType → Column
nullable n t = record { name = n; type = t; not_null = false; default = none }

abbrev pub required : String → ColumnType → Column
required n t = record { name = n; type = t; not_null = true; default = none }

abbrev pub defaulted : String → ColumnType → String → Column
defaulted n t d = record { name = n; type = t; not_null = true; default = some d }

abbrev pub index_on : String → String → List String → Statement
index_on n table columns =
    create_index (record { name = n; table = table; columns = columns; is_unique = false })
