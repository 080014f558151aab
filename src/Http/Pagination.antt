-- ===== src/Http/Pagination.antt =====
-- src/common/dto/pagination.dto.ts: a page of a list, and the windows that pages are.
use multi_tenant_saas_gatewa.Common.{
  ℕ, zero, suc, ◌+◌, ◌-◌, ◌*◌, ◌/◌, ◌%◌, ◌<◌, ◌≤◌, ◌≡◌, refl, List, min, arith, leb, if◌then◌else◌,
  Bool-cases, inl, inr, ◌⊎◌,
}
use multi_tenant_saas_gatewa.Users.{page_window}
use native.Mathlib.Nat.{div-add-mod', mod-lt, mul-le-mul_right}
use native.Mathlib.Decide.{dec_lt}

-- What `PaginationQueryDto` holds once it is validated, with 1 and 20 for what is missing.
pub record PaginationQueryDto : Type 0 where
  pub page : ℕ
  pub limit : ℕ

pub record PaginatedResponseDto (A : Type 0) : Type 0 where
  pub «data» : List A
  pub total : ℕ
  pub page : ℕ
  pub limit : ℕ
  pub total_pages : ℕ

-- `Math.ceil(total / limit)`, for a limit that is not 0.
unfoldable pub total_pages : ℕ → ℕ → ℕ
total_pages total limit = if leb (total % limit) 0 then total / limit else total / limit + 1

abbrev pub paginated : {A : Type 0} → List A → ℕ → ℕ → ℕ → PaginatedResponseDto A
paginated rows total page limit = record {
  «data» = rows;
  total = total;
  page = page;
  limit = limit;
  total_pages = total_pages total limit;
}

-- With a page size from 1 to 100, each of the `total` rows is in the window of exactly one page, and
-- that page is one of those that are announced.
pub page_window-total_pages :
    (total limit r : ℕ)
    → 1 ≤ limit
    → limit ≤ 100
    → r < total
    → (p : ℕ) × (1 ≤ p)
      × (p ≤ total_pages total limit)
      × ((page_window p limit).0 ≤ r)
      × (r < (page_window p limit).0 + (page_window p limit).1)
      × ((p' : ℕ)
          → (p' ≡ p)
            ⊎ (p' ≡ 0)
            ⊎ (r < (page_window p' limit).0)
            ⊎ ((page_window p' limit).0 + (page_window p' limit).1 ≤ r))
unfolding total_pages page_window
page_window-total_pages total limit r pos small lt =
    (r / limit + 1, omega arith, pages, ground (arith, below), ground (arith, below, above), only)
  where
    below : (r / limit) * limit ≤ r
    below = omega (arith, div-add-mod' r limit)

    above : r < (r / limit) * limit + limit
    above = omega (arith, div-add-mod' r limit, mod-lt r {m = limit} (omega arith))

    -- The pages are enough for the last row.
    pages : r / limit + 1 ≤ (if leb (total % limit) 0 then total / limit else total / limit + 1)
    pages = elim (dec_lt (total / limit) (r / limit)) [
      | yes over ↦ absurd (
          omega (
            arith,
            over,
            below,
            lt,
            div-add-mod' total limit,
            mod-lt total {m = limit} (omega arith),
            mul-le-mul_right {m = total / limit + 1} {n = r / limit} limit (omega (arith, over)),
          ))
      | no within ↦ elim (Bool-cases (leb (total % limit) 0)) [
        | inr more ↦ rw more (omega (arith, within))
        | inl exact ↦ elim (dec_lt (r / limit) (total / limit)) [
          | yes less ↦ rw exact (omega (arith, less))
          | no equal ↦ absurd (
              ground (
                arith,
                below,
                lt,
                exact,
                div-add-mod' total limit,
                mul-le-mul_right {m = total / limit} {n = r / limit} limit (omega (arith, equal)),
              ))
        ]
      ]
    ]

    only :
        (p' : ℕ)
        → (p' ≡ r / limit + 1)
          ⊎ (p' ≡ 0)
          ⊎ (r < (p' - 1) * min limit 100)
          ⊎ ((p' - 1) * min limit 100 + min limit 100 ≤ r)
    only zero = inr (inl refl)
    only (suc p) = elim (dec_lt p (r / limit)) [
      | yes before ↦ inr (
          inr (
            inr (
              ground (
                arith,
                below,
                mul-le-mul_right {m = p + 1} {n = r / limit} limit (omega (arith, before)),
              ))))
      | no not_before ↦ elim (dec_lt (r / limit) p) [
        | yes after ↦ inr (
            inr (
              inl (
                ground (
                  arith,
                  above,
                  mul-le-mul_right {m = r / limit + 1} {n = p} limit (omega (arith, after)),
                ))))
        | no not_after ↦ inl (omega (arith, not_before, not_after))
      ]
    ]
