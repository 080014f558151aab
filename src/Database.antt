-- ===== src/Database.antt =====
-- src/database/entities/base.entity.ts, and TypeORM's repositories as an interface: the operations
-- that the services call, over an unknown state of the table, and the laws that the services rely
-- on. A `where` object is a test on entities. A write may fail (a constraint, a lost connection),
-- and then gives no new
-- table.
pub mod Laws
pub mod Memory
use multi_tenant_saas_gatewa.Common.{
  ℕ, ◌+◌, ◌≤◌, all, length, String, ◌≡◌, Bool, true, false, Option, none, some, List, ◌==◌,
  if◌then◌else◌, In,
}
use multi_tenant_saas_gatewa.Common.Outcome.{Result, ok}
use mathlib.Core.Option

-- `BaseEntity`: the columns that every entity has. Dates are milliseconds.
pub record BaseEntity : Type 0 where
  pub id : String
  pub created_at : ℕ
  pub updated_at : ℕ
  pub deleted_at : Option ℕ

-- A class that extends `BaseEntity`, by the record of its own columns.
pub record Entity (F : Type 0) : Type 0 where
  pub base : BaseEntity
  pub open base use *
  pub own : F

abbrev pub Where : Type 0 → Type 0
Where F = Entity F → Bool

-- `Repository<E>`. `insert` is `save(create(columns))` of a new entity, `save` that of a loaded one,
-- `update` is `update(criteria, partial)`; `find` gives rows in no stated order, `find_desc` by
-- `createdAt` from the newest, `find_page` is `findAndCount` with `skip` and `take`.
pub record Repository (F : Type 0) : Type 1 where
  pub Table : Type 0
  pub find_one : Where F → Table → Option (Entity F)
  pub find : Where F → Table → List (Entity F)
  pub find_desc : Where F → Table → List (Entity F)
  pub find_page : Where F → ℕ → ℕ → Table → List (Entity F) × ℕ
  pub count : Where F → Table → ℕ
  pub insert : F → Table → Result (Entity F × Table)
  pub save : Entity F → Table → Result (Entity F × Table)
  pub update : Where F → (F → F) → Table → Result (Unit {0} × Table)
  pub remove : Entity F → Table → Result (Unit {0} × Table)

abbrev pub bit : Bool → ℕ
bit true = 1
bit false = 0

-- What an entity keeps when it is saved: all but `updatedAt`.
pub record IsSavedAs {F : Type 0} (e e' : Entity F) : Type 0 where
  pub same_id : e'.id ≡ e.id
  pub same_created : e'.created_at ≡ e.created_at
  pub same_own : e'.own ≡ e.own

-- Rows by their primary key.
abbrev pub put : {F : Type 0} → Entity F → (String → Option (Entity F)) → String → Option (Entity F)
put e rows i = if e.id == i then some e else rows i

abbrev pub drop_row :
    {F : Type 0} → Entity F → (String → Option (Entity F)) → String → Option (Entity F)
drop_row e rows i = if e.id == i then none else rows i

-- The documented behaviour: `row` is the table seen by primary key.
pub record IsLawful {F : Type 0} (R : Repository F) : Type 0 where
  pub row : R.Table → String → Option (Entity F)
  pub find_one_some :
      (p : Where F) (t : R.Table) (e : Entity F)
      → R.find_one p t ≡ some e
      → (row t e.id ≡ some e) × (p e ≡ true)
  pub find_one_none :
      (p : Where F) (t : R.Table) (i : String) (e : Entity F)
      → R.find_one p t ≡ none
      → row t i ≡ some e
      → p e ≡ false
  pub find_sound :
      (p : Where F) (t : R.Table) (e : Entity F)
      → In e (R.find p t)
      → (row t e.id ≡ some e) × (p e ≡ true)
  pub find_complete :
      (p : Where F) (t : R.Table) (i : String) (e : Entity F)
      → row t i ≡ some e
      → p e ≡ true
      → In e (R.find p t)
  pub row_id : (t : R.Table) (i : String) (e : Entity F) → row t i ≡ some e → e.id ≡ i
  pub insert_ok :
      (f : F) (t t' : R.Table) (e : Entity F)
      → R.insert f t ≡ ok (e, t')
      → (row t e.id ≡ none)
        × (e.own ≡ f)
        × ((i : String) → row t' i ≡ put e (row t) i)
        × ((p : Where F) → R.count p t' ≡ R.count p t + bit (p e))
  pub save_ok :
      (e e' old : Entity F) (t t' : R.Table)
      → row t e.id ≡ some old
      → R.save e t ≡ ok (e', t')
      → IsSavedAs e e'
        × ((i : String) → row t' i ≡ put e' (row t) i)
        × ((p : Where F) → R.count p t' + bit (p old) ≡ R.count p t + bit (p e'))
  pub remove_ok :
      (e old : Entity F) (t t' : R.Table)
      → row t e.id ≡ some old
      → R.remove e t ≡ ok (tt, t')
      → ((i : String) → row t' i ≡ drop_row e (row t) i)
        × ((p : Where F) → R.count p t' + bit (p old) ≡ R.count p t)
  pub update_ok :
      (p : Where F) (g : F → F) (t t' : R.Table)
      → R.update p g t ≡ ok (tt, t')
      → (i : String)
      → Option.map (λ e. e.own) (row t' i)
        ≡ Option.map (λ e. if p e then g e.own else e.own) (row t i)

-- The documented behaviour of `findAndCount`: the rows pass the test, a `take` above 0 bounds them,
-- and the second part counts all rows that pass.
pub record IsLawfulPage {F : Type 0} (R : Repository F) : Type 0 where
  pub passes :
      (p : Where F) (skip take : ℕ) (t : R.Table) → all p (R.find_page p skip take t).0 ≡ true
  pub bounded :
      (p : Where F) (skip take : ℕ) (t : R.Table)
      → 1 ≤ take
      → length (R.find_page p skip take t).0 ≤ take
  pub counts :
      (p : Where F) (skip take : ℕ) (t : R.Table) → (R.find_page p skip take t).1 ≡ R.count p t
