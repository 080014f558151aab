-- ===== src/Database/Memory/Writes.antt =====
-- The writes of the table in memory, and the laws that they meet.
use multi_tenant_saas_gatewa.Common.{
  ℕ, zero, suc, ◌+◌, String, ◌≡◌, ap, ◌∙◌, true, none, some, List, [], ◌∷◌, if◌then◌else◌, concat,
  filter, length, arith,
}
use multi_tenant_saas_gatewa.Common.Outcome.{Result, ok, throw, query_failed, entity_not_found}
use multi_tenant_saas_gatewa.Database.{Entity, Where, IsSavedAs, bit, put, drop_row}
use mathlib.Core.Option
use multi_tenant_saas_gatewa.Database.Memory.Rows.{
  known, distinct, get, replace, without, change, get_of_known, distinct-replace, distinct-without,
  get-replace, count-replace, get-without, count-without, get-change, distinct-change,
}

-- The rows that a list stands for.
unfoldable pub rows : {F : Type 0} → List (Entity F) → List (Entity F)
rows es = if distinct es then es else []

pub distinct-rows : {F : Type 0} (es : List (Entity F)) → distinct (rows es) ≡ true
unfolding rows distinct
distinct-rows es = ground arith

pub rows_of_distinct : {F : Type 0} (es : List (Entity F)) → distinct es ≡ true → rows es ≡ es
unfolding rows
rows_of_distinct es d = rw d

-- The ids that the table gives out: "id", "id+", "id++", …
unfoldable pub unary : ℕ → String
unary zero = "id"
unary (suc n) = concat (unary n ∷ "+" ∷ [])

module _ {F : Type 0} where
  unfoldable pub fresh_row : F → List (Entity F) → Entity F
  fresh_row f es = record {
    base = record {
      id = unary (length es);
      created_at = length es;
      updated_at = length es;
      deleted_at = none;
    };
    own = f;
  }

  unfoldable pub insert_row : F → List (Entity F) → Result (Entity F × List (Entity F))
  insert_row f es =
      if known (fresh_row f es).id es
      then throw (query_failed (some "23505"))
      else ok (fresh_row f es, fresh_row f es ∷ es)

  unfoldable pub save_row : Entity F → List (Entity F) → Result (Entity F × List (Entity F))
  save_row e es = if known e.id es then ok (e, replace e es) else throw entity_not_found

  unfoldable pub remove_row : Entity F → List (Entity F) → Result (Unit {0} × List (Entity F))
  remove_row e es = if known e.id es then ok (tt, without e es) else throw entity_not_found

-- `find_page` with the counter of `findAndCount`.
unfoldable pub page : {A : Type 0} → ℕ → ℕ → List A → List A
page skip take [] = []
page zero zero (x ∷ xs) = []
page zero (suc n) (x ∷ xs) = x ∷ page zero n xs
page (suc k) n (x ∷ xs) = page k n xs

module _ {F : Type 0} where
  pub insert_row_ok :
      (f : F) (es es' : List (Entity F)) (e : Entity F)
      → distinct es ≡ true
      → insert_row f es ≡ ok (e, es')
      → (get e.id es ≡ none) × (e.own ≡ f) × (rows es' ≡ e ∷ es)
  unfolding insert_row fresh_row rows distinct
  insert_row_ok f es es' e d h = ground (arith, get_of_known e.id es)

  pub save_row_ok :
      (e e' : Entity F) (es es' : List (Entity F))
      → distinct es ≡ true
      → save_row e es ≡ ok (e', es')
      → (e' ≡ e) × (known e.id es ≡ true) × (rows es' ≡ replace e es)
  unfolding save_row
  save_row_ok e e' es es' d h =
      ground (arith, distinct-replace e es, rows_of_distinct (replace e es))

  pub remove_row_ok :
      (e : Entity F) (es es' : List (Entity F))
      → distinct es ≡ true
      → remove_row e es ≡ ok (tt, es')
      → rows es' ≡ without e es
  unfolding remove_row
  remove_row_ok e es es' d h =
      ground (arith, distinct-without e es, rows_of_distinct (without e es))

module _ {F : Type 0} where
  pub insert_laws :
      (f : F) (t t' : List (Entity F)) (e : Entity F)
      → insert_row f (rows t) ≡ ok (e, t')
      → (get e.id (rows t) ≡ none)
        × (e.own ≡ f)
        × ((i : String) → get i (rows t') ≡ put e (λ j. get j (rows t)) i)
        × ((p : Where F) → length (filter p (rows t')) ≡ length (filter p (rows t)) + bit (p e))
  unfolding get
  insert_laws f t t' e h =
      let (fresh, same, now) = insert_row_ok f (rows t) t' e (distinct-rows t) h in
      (fresh, same, λ i. rw now, λ p. rw now (ground arith))

  pub save_laws :
      (e e' old : Entity F) (t t' : List (Entity F))
      → get e.id (rows t) ≡ some old
      → save_row e (rows t) ≡ ok (e', t')
      → IsSavedAs e e'
        × ((i : String) → get i (rows t') ≡ put e' (λ j. get j (rows t)) i)
        × ((p : Where F)
            → length (filter p (rows t')) + bit (p old) ≡ length (filter p (rows t)) + bit (p e'))
  save_laws e e' old t t' g h =
      let (same, here, now) = save_row_ok e e' (rows t) t' (distinct-rows t) h in
      (
        record {
          same_id = ap (λ x. x.id) same;
          same_created = ap (λ x. x.created_at) same;
          same_own = ap (λ x. x.own) same;
        },
        λ i. rw (now, same) (get-replace e (rows t) i here),
        λ p. rw (now, same) (count-replace p e old (rows t) g),
      )

  pub remove_laws :
      (e old : Entity F) (t t' : List (Entity F))
      → get e.id (rows t) ≡ some old
      → remove_row e (rows t) ≡ ok (tt, t')
      → ((i : String) → get i (rows t') ≡ drop_row e (λ j. get j (rows t)) i)
        × ((p : Where F) → length (filter p (rows t')) + bit (p old) ≡ length (filter p (rows t)))
  remove_laws e old t t' g h =
      let now = remove_row_ok e (rows t) t' (distinct-rows t) h in
      (
        λ i. rw now (get-without e (rows t) i (distinct-rows t)),
        λ p. rw now (count-without p e old (rows t) g),
      )

  pub update_laws :
      (p : Where F) (g : F → F) (t t' : List (Entity F))
      → ◌≡◌ {A = Result (Unit {0} × List (Entity F))} (ok (tt, change p g (rows t))) (ok (tt, t'))
      → (i : String)
      → Option.map (λ e. e.own) (get i (rows t'))
        ≡ Option.map (λ e. if p e then g e.own else e.own) (get i (rows t))
  update_laws p g t t' h i =
      let same : t' ≡ change p g (rows t) = cc in
      rw
        (
          same,
          rows_of_distinct (change p g (rows t)) (distinct-change p g (rows t) ∙ distinct-rows t),
        )
        (get-change p g (rows t) i)
