-- ===== src/Database/Laws.antt =====
-- The outcomes of the writes of a lawful repository, each as one case split: `p` is a test whose
-- rows are counted, `i` an id whose row is read.
use multi_tenant_saas_gatewa.Common.{
  true, Option-cases, ◌+◌, String, ◌≡◌, refl, ◌⊎◌, inl, inr, none, some, arith,
}
use multi_tenant_saas_gatewa.Common.Outcome.{Result, Exception, ok, throw}
use multi_tenant_saas_gatewa.Database.{Entity, Where, Repository, IsLawful, bit, put, drop_row}

pub Result-cases :
    {A : Type 0} (r : Result A) → ((x : Exception) × (r ≡ throw x)) ⊎ ((a : A) × (r ≡ ok a))
Result-cases (throw x) = inl (x, refl)
Result-cases (ok a) = inr (a, refl)

module _ {F : Type 0} {R : Repository F} (L : IsLawful R) (p : Where F) (i : String) where
  pub insert_cases :
      (f : F) (t : R.Table)
      → ((x : Exception) × (R.insert f t ≡ throw x))
        ⊎ ((e : Entity F) × (t' : R.Table) × (R.insert f t ≡ ok (e, t'))
            × (L.row t e.id ≡ none)
            × (e.own ≡ f)
            × (L.row t' i ≡ put e (L.row t) i)
            × (R.count p t' ≡ R.count p t + bit (p e)))
  insert_cases f t = elim (Result-cases (R.insert f t)) [
    | inl failed ↦ inl failed
    | inr ((e, t'), done) ↦
        let (fresh, own, rows, counted) = L.insert_ok f t t' e done in
        inr (e, t', done, fresh, own, rows i, counted p)
  ]

  pub save_cases :
      (e old : Entity F) (t : R.Table)
      → L.row t e.id ≡ some old
      → ((x : Exception) × (R.save e t ≡ throw x))
        ⊎ ((e' : Entity F) × (t' : R.Table) × (R.save e t ≡ ok (e', t'))
            × (e'.id ≡ e.id)
            × (e'.own ≡ e.own)
            × (L.row t' i ≡ put e' (L.row t) i)
            × (R.count p t' + bit (p old) ≡ R.count p t + bit (p e')))
  save_cases e old t g = elim (Result-cases (R.save e t)) [
    | inl failed ↦ inl failed
    | inr ((e', t'), done) ↦
        let (same, rows, counted) = L.save_ok e e' old t t' g done in
        inr (e', t', done, same.same_id, same.same_own, rows i, counted p)
  ]

  pub remove_cases :
      (e old : Entity F) (t : R.Table)
      → L.row t e.id ≡ some old
      → ((x : Exception) × (R.remove e t ≡ throw x))
        ⊎ ((t' : R.Table) × (R.remove e t ≡ ok (tt, t'))
            × (L.row t' i ≡ drop_row e (L.row t) i)
            × (R.count p t' + bit (p old) ≡ R.count p t))
  remove_cases e old t g = elim (Result-cases (R.remove e t)) [
    | inl failed ↦ inl failed
    | inr ((_, t'), done) ↦
        let (rows, counted) = L.remove_ok e old t t' g done in inr (t', done, rows i, counted p)
  ]

  -- A search by a test gives a row that passes it, or no row passes it.
  pub find_one_cases :
      (q : Where F) (t : R.Table)
      → (R.find_one q t ≡ none)
        ⊎ ((e : Entity F) × (R.find_one q t ≡ some e) × (L.row t e.id ≡ some e) × (q e ≡ true))
  find_one_cases q t = elim (Option-cases (R.find_one q t)) [
    | inl missing ↦ inl missing
    | inr (e, found) ↦
        let (row, passed) = L.find_one_some q t e found in inr (e, found, row, passed)
  ]

module _ {F : Type 0} {R : Repository F} (L : IsLawful R) where
  -- A test that only the row with the id `i` can pass finds that row.
  pub find_one_of_id :
      (q : Where F) (t : R.Table) (i : String) (e : Entity F)
      → ((k : Entity F) → q k ≡ true → k.id ≡ i)
      → L.row t i ≡ some e
      → q e ≡ true
      → R.find_one q t ≡ some e
  find_one_of_id q t i e only row passed = elim (find_one_cases L q i q t) [
    | inl missing ↦ absurd (ground (arith, L.find_one_none q t i e))
    | inr (k, found, stored, good) ↦ let same : k ≡ e = ground (arith, only k) in rw (← same) found
  ]
