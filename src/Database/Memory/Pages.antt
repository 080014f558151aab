-- ===== src/Database/Memory/Pages.antt =====
-- The pages of a list.
use multi_tenant_saas_gatewa.Common.{
  ℕ, zero, suc, ◌≤◌, ◌≡◌, refl, Bool, true, List, [], ◌∷◌, all, filter, length, arith,
}
use multi_tenant_saas_gatewa.Database.Memory.Writes.{page}

module _ {A : Type 0} where
  pub all-filter : (p : A → Bool) (xs : List A) → all p (filter p xs) ≡ true
  all-filter p [] = refl
  all-filter p (x ∷ xs) = ground (arith, all-filter p xs)

  pub all-page :
      (p : A → Bool) (skip take : ℕ) (xs : List A)
      → all p xs ≡ true
      → all p (page skip take xs) ≡ true
  unfolding page
  all-page p skip take [] h = refl
  all-page p zero zero (x ∷ xs) h = refl
  all-page p zero (suc n) (x ∷ xs) h = ground (arith, h, all-page p zero n xs)
  all-page p (suc k) n (x ∷ xs) h = all-page p k n xs (ground (arith, h))

  pub length-page : (skip take : ℕ) (xs : List A) → length (page skip take xs) ≤ take
  unfolding page
  length-page skip take [] = omega arith
  length-page zero zero (x ∷ xs) = omega arith
  length-page zero (suc n) (x ∷ xs) = omega (arith, length-page zero n xs)
  length-page (suc k) n (x ∷ xs) = length-page k n xs
