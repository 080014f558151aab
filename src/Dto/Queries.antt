-- ===== src/Dto/Queries.antt =====
-- src/common/dto/pagination.dto.ts and search.dto.ts: the queries of the lists. The controllers of users and
-- of tenants read the same query twice, as a page and as a filter.
use multi_tenant_saas_gatewa.Common.{
  String, ◌≡◌, ◌≢◌, refl, true, Option, none, some, [], ◌∷◌, leb, get_or, arith,
}
use multi_tenant_saas_gatewa.Http.Pagination.{PaginationQueryDto}
use multi_tenant_saas_gatewa.Controllers.Users.{UserFilterDto}
use multi_tenant_saas_gatewa.Controllers.Tenants.{TenantFilterDto}
use multi_tenant_saas_gatewa.Dto.{
  Validators, Fields, ◌>>=◌, ◌>>◌, guard, whitelisted, optional_string, optional, optional_int,
  text_of, string_type, Holds, Holds-bind, Holds-some, guard_passed, between,
}
use multi_tenant_saas_gatewa.Dto.Users.{user_status_of}
use multi_tenant_saas_gatewa.Dto.Tenants.{tenant_status_of}
use text.Mathlib.TextEquality.{eq_iff}

module _ (V : Validators) (fields : Fields) where
  unfoldable pub pagination_query_dto : Option PaginationQueryDto
  pagination_query_dto = do
    guard (whitelisted ("page" ∷ "limit" ∷ []) fields)
    page ← optional_int V fields "page" (leb 1)
    limit ← optional_int V fields "limit" (between 1 100)
    some (record { page = get_or page 1; limit = get_or limit 20 })

  -- `q` of `SearchQueryDto`.
  abbrev pub search_term : Option (Option String)
  search_term = optional_string V fields "q" (λ s. leb (V.length s) 100)

  unfoldable pub user_filter_dto : Option UserFilterDto
  user_filter_dto = do
    guard (whitelisted ("q" ∷ "status" ∷ []) fields)
    q ← search_term
    status ← optional V fields string_type (λ v. text_of v >>= user_status_of) "status"
    some (record { q = q; status = status })

  unfoldable pub tenant_filter_dto : Option TenantFilterDto
  tenant_filter_dto = do
    guard (whitelisted ("q" ∷ "status" ∷ []) fields)
    q ← search_term
    status ← optional V fields string_type (λ v. text_of v >>= tenant_status_of) "status"
    some (record { q = q; status = status })

-- What the pipe makes of one query for both parameters of a list.
unfoldable pub list_users_query : Validators → Fields → Option (PaginationQueryDto × UserFilterDto)
unfolding pagination_query_dto user_filter_dto
list_users_query V fields = do
  pagination ← pagination_query_dto V fields
  filter ← user_filter_dto V fields
  some (pagination, filter)

unfoldable pub list_tenants_query :
    Validators → Fields → Option (PaginationQueryDto × TenantFilterDto)
unfolding pagination_query_dto tenant_filter_dto
list_tenants_query V fields = do
  pagination ← pagination_query_dto V fields
  filter ← tenant_filter_dto V fields
  some (pagination, filter)

-- No key is allowed by both.
whitelisted_both :
    (fields : Fields)
    → whitelisted ("page" ∷ "limit" ∷ []) fields ≡ true
    → whitelisted ("q" ∷ "status" ∷ []) fields ≡ true
    → fields ≡ []
unfolding whitelisted
whitelisted_both [] pages filters = refl
whitelisted_both ((key, v) ∷ rest) pages filters = absurd (
    ground (
      arith,
      pages,
      filters,
      eq_iff "page" "q",
      eq_iff "page" "status",
      eq_iff "limit" "q",
      eq_iff "limit" "status",
    ))

module _ (V : Validators) (fields : Fields) where
  pagination_query_dto-whitelisted :
      Holds (λ _. whitelisted ("page" ∷ "limit" ∷ []) fields ≡ true) (pagination_query_dto V fields)
  unfolding pagination_query_dto
  pagination_query_dto-whitelisted =
      Holds-bind (guard (whitelisted ("page" ∷ "limit" ∷ []) fields)) _
        λ u passed. let allowed = guard_passed _ u passed in record { apply = λ _ _. allowed }

  user_filter_dto-whitelisted :
      Holds (λ _. whitelisted ("q" ∷ "status" ∷ []) fields ≡ true) (user_filter_dto V fields)
  unfolding user_filter_dto
  user_filter_dto-whitelisted =
      Holds-bind (guard (whitelisted ("q" ∷ "status" ∷ []) fields)) _
        λ u passed. let allowed = guard_passed _ u passed in record { apply = λ _ _. allowed }

  tenant_filter_dto-whitelisted :
      Holds (λ _. whitelisted ("q" ∷ "status" ∷ []) fields ≡ true) (tenant_filter_dto V fields)
  unfolding tenant_filter_dto
  tenant_filter_dto-whitelisted =
      Holds-bind (guard (whitelisted ("q" ∷ "status" ∷ []) fields)) _
        λ u passed. let allowed = guard_passed _ u passed in record { apply = λ _ _. allowed }

-- The page of a query without parameters.
abbrev pub first_page : PaginationQueryDto
first_page = record { page = 1; limit = 20 }

module _ (V : Validators) (fields : Fields) where
  list_users_query_empty : Holds (λ _. fields ≡ []) (list_users_query V fields)
  unfolding list_users_query
  list_users_query_empty = Holds-bind (pagination_query_dto V fields) _ λ p paged.
      Holds-bind (user_filter_dto V fields) _ λ f filtered. Holds-some _ (
        whitelisted_both fields ((pagination_query_dto-whitelisted V fields).apply p paged)
          ((user_filter_dto-whitelisted V fields).apply f filtered))

  list_tenants_query_empty : Holds (λ _. fields ≡ []) (list_tenants_query V fields)
  unfolding list_tenants_query
  list_tenants_query_empty = Holds-bind (pagination_query_dto V fields) _ λ p paged.
      Holds-bind (tenant_filter_dto V fields) _ λ f filtered. Holds-some _ (
        whitelisted_both fields ((pagination_query_dto-whitelisted V fields).apply p paged)
          ((tenant_filter_dto-whitelisted V fields).apply f filtered))

refused_unless : {A P : Type 0} (o : Option A) → ((a : A) → o ≡ some a → P) → ¬ P → o ≡ none
refused_unless none h n = refl
refused_unless (some a) h n = absurd (n (h a refl))

-- A query with any parameter at all is refused by the lists of users and of tenants, and one without
-- parameters asks for the first twenty of all.
pub list_queries_refused :
    (V : Validators) (fields : Fields)
    → fields ≢ []
    → (list_users_query V fields ≡ none)
      × (list_tenants_query V fields ≡ none)
      × (list_users_query V [] ≡ some (first_page, record { q = none; status = none }))
      × (list_tenants_query V [] ≡ some (first_page, record { q = none; status = none }))
unfolding list_users_query list_tenants_query whitelisted ◌>>=◌
list_queries_refused V fields given = (
  refused_unless (list_users_query V fields) (list_users_query_empty V fields).apply given,
  refused_unless (list_tenants_query V fields) (list_tenants_query_empty V fields).apply given,
  refl,
  refl,
)
