-- ===== src/Migrations/Frame.antt =====
-- The statements of src/database/migrations in a database that holds other things: what a statement
-- does beside tables, types and indexes that it does not mention.
use multi_tenant_saas_gatewa.Common.{
  String, ◌≡◌, refl, ap, ◌∙◌, Bool, true, false, not, ◌&&◌, ◌||◌, List, [], ◌∷◌, ◌++◌, ◌==◌, any,
  all, arith,
}
use mathlib.Core.Option
use multi_tenant_saas_gatewa.Migrations.{
  ColumnType, enum, Constraint, foreign_key, Table, Statement, create_type, create_table,
  create_index, add_constraint, insert_into, delete_from, drop_table, drop_table_if_exists,
  drop_type, drop_index, Catalogue, execute, run, is_table, is_index, is_type, uses, refers_to,
  change, known_type, resolves, taken, uuid, text, jsonb, timestamp, boolean, integer, text_array,
  varchar, primary_key, unique, without_table, free_to_drop, on_some, has_columns, is_key, fits,
}
use multi_tenant_saas_gatewa.Migrations.Lists.{
  or-cong, any-append, filter-append, change-append, any-&&, any-&&₂, unless-map, if-map,
  on_some-map, not-false, left, right, all-cong,
}

-- What the database holds besides.
abbrev pub beside : Catalogue → Catalogue → Catalogue
beside base c = record {
  types = c.types ++ base.types;
  tables = c.tables ++ base.tables;
  indexes = c.indexes ++ base.indexes;
}

-- Nothing in the database has the name, and no column, constraint or index in it mentions it.
abbrev pub apart : Catalogue → String → Bool
apart base n =
    not (any (is_table n) base.tables)
    && (not (any (is_index n) base.indexes)
        && (not (any (is_type n) base.types)
            && (not (any (uses n) base.tables)
                && (not (any (refers_to n) base.tables)
                    && not (any (λ i. i.table == n) base.indexes)))))

abbrev pub apart_type : Catalogue → ColumnType → Bool
apart_type base (enum e) = apart base e
apart_type base _ = true

abbrev pub apart_target : Catalogue → Constraint → Bool
apart_target base (foreign_key name column table target cascade) = apart base table
apart_target base _ = true

-- The statement mentions nothing of the database.
unfoldable pub separate : Catalogue → Statement → Bool
separate base (create_type n labels) = apart base n
separate base (create_table n columns constraints) =
    apart base n
    && (all (λ k. apart_type base k.type) columns && all (apart_target base) constraints)
separate base (create_index i) = apart base i.name && apart base i.table
separate base (add_constraint n k) = apart base n && apart_target base k
separate base (insert_into n rows) = apart base n
separate base (delete_from n) = apart base n
separate base (drop_table n) = apart base n
separate base (drop_table_if_exists n) = apart base n
separate base (drop_type n) = apart base n
separate base (drop_index n) = apart base n

-- A name that is apart from the database, in each of its lists.
record Apart (base : Catalogue) (n : String) : Type 0 where
  no_table : any (is_table n) base.tables ≡ false
  no_index : any (is_index n) base.indexes ≡ false
  no_type : any (is_type n) base.types ≡ false
  no_use : any (uses n) base.tables ≡ false
  no_reference : any (refers_to n) base.tables ≡ false
  no_index_on : any (λ i. i.table == n) base.indexes ≡ false

apart-Apart : (base : Catalogue) (n : String) → apart base n ≡ true → Apart base n
apart-Apart base n h =
    let h₂ = right _ _ h in
    let h₃ = right _ _ h₂ in
    let h₄ = right _ _ h₃ in
    let h₅ = right _ _ h₄ in
    record {
      no_table = not-false _ (left _ _ h);
      no_index = not-false _ (left _ _ h₂);
      no_type = not-false _ (left _ _ h₃);
      no_use = not-false _ (left _ _ h₄);
      no_reference = not-false _ (left _ _ h₅);
      no_index_on = not-false _ (right _ _ h₅);
    }

module _ (base c : Catalogue) where
  taken-beside : (n : String) → apart base n ≡ true → taken n (beside base c) ≡ taken n c
  taken-beside n h =
      let a = apart-Apart base n h in
      ap (λ b. b || any (is_index n) (beside base c).indexes)
        (any-append _ c.tables base.tables a.no_table)
      ∙ ap (λ b. any (is_table n) c.tables || b) (any-append _ c.indexes base.indexes a.no_index)

  known-beside :
      (t : ColumnType)
      → apart_type base t ≡ true
      → known_type (beside base c).types t ≡ known_type c.types t
  known-beside (enum e) h = any-append _ c.types base.types (apart-Apart base e h).no_type
  known-beside uuid h = refl
  known-beside text h = refl
  known-beside jsonb h = refl
  known-beside timestamp h = refl
  known-beside boolean h = refl
  known-beside integer h = refl
  known-beside text_array h = refl
  known-beside (varchar n) h = refl

  resolves-beside :
      (k : Constraint)
      → apart_target base k ≡ true
      → resolves (beside base c).tables k ≡ resolves c.tables k
  resolves-beside (primary_key names) h = refl
  resolves-beside (unique names) h = refl
  resolves-beside (foreign_key name column table target cascade) h =
      any-append _ c.tables base.tables
        (any-&& (is_table table) (is_key target) base.tables (apart-Apart base table h).no_table)

module _ (base c : Catalogue) where
  free-beside :
      (n : String) → apart base n ≡ true → free_to_drop n (beside base c) ≡ free_to_drop n c
  free-beside n h = ap not (
      any-append _ c.tables base.tables (
        any-&&₂ (λ t. not (is_table n t)) (refers_to n) base.tables
          (apart-Apart base n h).no_reference))

  without-beside :
      (n : String)
      → apart base n ≡ true
      → without_table n (beside base c) ≡ beside base (without_table n c)
  without-beside n h =
      let a = apart-Apart base n h in
      ap (λ ts. record (without_table n (beside base c)) { tables = ts })
        (filter-append (is_table n) c.tables base.tables a.no_table)
      ∙ ap (λ is. record (beside base (without_table n c)) { indexes = is })
          (filter-append (λ i. i.table == n) c.indexes base.indexes a.no_index_on)

  change-beside :
      (n : String) (f : Table → Table)
      → apart base n ≡ true
      → record (beside base c) { tables = change n f (beside base c).tables }
        ≡ beside base (record c { tables = change n f c.tables })
  change-beside n f h =
      ap (λ ts. record (beside base c) { tables = ts })
        (change-append n f c.tables base.tables (apart-Apart base n h).no_table)

  table-beside :
      (n : String)
      → apart base n ≡ true
      → any (is_table n) (beside base c).tables ≡ any (is_table n) c.tables
  table-beside n h = any-append _ c.tables base.tables (apart-Apart base n h).no_table

  -- A statement that mentions nothing of the database leaves it alone, and does the same beside it.
  pub execute-beside :
      (st : Statement)
      → separate base st ≡ true
      → execute st (beside base c) ≡ Option.map (beside base) (execute st c)
  unfolding execute separate
  execute-beside (create_type n labels) h =
      unless-map (beside base)
        (any-append (is_type n) c.types base.types (apart-Apart base n h).no_type) refl
  execute-beside (create_table n columns constraints) h =
      let taken_same = taken-beside base c n (left _ _ h) in
      let typed_same =
        all-cong _ _ _ columns (λ k. known-beside base c k.type) (left _ _ (right _ _ h)) in
      let there_same =
        all-cong _ _ _ constraints (resolves-beside base c) (right _ _ (right _ _ h)) in
      unless-map (beside base)
        (or-cong (or-cong (or-cong taken_same (ap not typed_same)) (ap not there_same)) refl) refl
  execute-beside (create_index i) h =
      let taken_same = taken-beside base c i.name (left _ _ h) in
      let there_same : any (λ t. is_table i.table t && has_columns i.columns t)
            (beside base c).tables
          ≡ any (λ t. is_table i.table t && has_columns i.columns t) c.tables =
        any-append _ c.tables base.tables (
          any-&& (is_table i.table) (has_columns i.columns) base.tables
            (apart-Apart base i.table (right _ _ h)).no_table) in
      unless-map (beside base) (or-cong taken_same (ap not there_same)) refl
  execute-beside (add_constraint n k) h =
      let there_same : any (λ t. is_table n t && fits t.columns k) (beside base c).tables
          ≡ any (λ t. is_table n t && fits t.columns k) c.tables =
        any-append _ c.tables base.tables (
          any-&& (is_table n) (λ t. fits t.columns k) base.tables
            (apart-Apart base n (left _ _ h)).no_table) in
      let resolves_same = resolves-beside base c k (right _ _ h) in
      unless-map (beside base) (or-cong (ap not there_same) (ap not resolves_same))
        (change-beside n _ (left _ _ h))
  execute-beside (insert_into n rows) h =
      unless-map (beside base) (ap not (table-beside n h)) (change-beside n _ h)
  execute-beside (delete_from n) h =
      unless-map (beside base) (ap not (table-beside n h)) (change-beside n _ h)
  execute-beside (drop_table n) h =
      unless-map (beside base) (ground (arith, table-beside n h, free-beside n h))
        (without-beside n h)
  execute-beside (drop_table_if_exists n) h =
      if-map (beside base) _ _ c (table-beside n h)
        (unless-map (beside base) (ap not (free-beside n h)) (without-beside n h))
  execute-beside (drop_type n) h =
      let a = apart-Apart base n h in
      unless-map (beside base)
        (ground (
          arith,
          any-append (is_type n) c.types base.types a.no_type,
          any-append (uses n) c.tables base.tables a.no_use,
        ))
        (ap (λ ts. record (beside base c) { types = ts })
          (filter-append (is_type n) c.types base.types a.no_type))
  execute-beside (drop_index n) h =
      let a = apart-Apart base n h in
      unless-map (beside base) (ap not (any-append (is_index n) c.indexes base.indexes a.no_index))
        (ap (λ is. record (beside base c) { indexes = is })
          (filter-append (is_index n) c.indexes base.indexes a.no_index))
  -- The same for several statements.

pub run-beside :
    (base : Catalogue) (sts : List Statement) (c : Catalogue)
    → all (separate base) sts ≡ true
    → run sts (beside base c) ≡ Option.map (beside base) (run sts c)
unfolding run
run-beside base [] c h = refl
run-beside base (st ∷ rest) c h =
    ap (on_some (run rest)) (execute-beside base c st (left _ _ h))
    ∙ on_some-map (beside base) (run rest) (run rest) (execute st c)
        (λ d. run-beside base rest d (right _ _ h))
