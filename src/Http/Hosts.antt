-- ===== src/Http/Hosts.antt =====
-- Splitting a host into its labels, and the tenant that a host names.
use multi_tenant_saas_gatewa.Common.{
  String, ◌≡◌, refl, ap, ◌∙◌, Bool, true, false, Option, none, some, List, [], ◌∷◌, if◌then◌else◌,
  arith, truthy, ◌==◌, all,
}
use multi_tenant_saas_gatewa.Common.Outcome.{Result, ok, throw}
use multi_tenant_saas_gatewa.Http.Request.{Request}
use multi_tenant_saas_gatewa.Http.Middleware.{
  is_dot, split_dots, first_of_three, extract_subdomain, tenant_required, resolve_tenant,
}
use Prim.Native.String
use text.Mathlib.TextLemmas.{cons-append, nil-append}

-- The labels with a dot between each two.
unfoldable pub join_dots : List String → String
join_dots [] = ""
join_dots (part ∷ parts) = elim parts [
  | [] ↦ part
  | ◌∷◌ next rest ↦ String.◌++◌ part (String.◌++◌ "." (join_dots parts))
]

-- No character is a dot.
unfoldable pub is_label : String → Bool
is_label String.[] = true
is_label (String.◌∷◌ c s) = let rest = is_label s in if is_dot c then false else rest

-- The labels of `a.rest`.
split_dots-label :
    (a rest : String)
    → is_label a ≡ true
    → split_dots (String.◌++◌ a (String.◌++◌ "." rest)) ≡ a ∷ split_dots rest
unfolding split_dots is_label
split_dots-label String.[] rest h =
    rw (nil-append (String.◌++◌ "." rest), cons-append "." "" rest, nil-append rest) refl
split_dots-label (String.◌∷◌ c a) rest h =
    let inner = split_dots-label a rest (ground (arith, h)) in
    let plain : is_dot c ≡ false = ground (arith, h) in
    rw (cons-append c a (String.◌++◌ "." rest), plain, inner) refl

-- A text without a dot is its only label.
split_dots-single : (a : String) → is_label a ≡ true → split_dots a ≡ a ∷ []
unfolding split_dots is_label
split_dots-single String.[] h = refl
split_dots-single (String.◌∷◌ c a) h =
    let inner = split_dots-single a (ground (arith, h)) in
    let plain : is_dot c ≡ false = ground (arith, h) in rw (plain, inner) refl

split_dots-join_dots :
    (part : String) (parts : List String)
    → all is_label (part ∷ parts) ≡ true
    → split_dots (join_dots (part ∷ parts)) ≡ part ∷ parts
unfolding join_dots
split_dots-join_dots part [] h = split_dots-single part (ground arith)
split_dots-join_dots part (next ∷ rest) h =
    split_dots-label part (join_dots (next ∷ rest)) (ground arith)
    ∙ ap (λ l. part ∷ l) (split_dots-join_dots next rest (ground arith))

-- The tenant by the header and the labels of the host.
unfoldable pub tenant_of : Option String → List String → Result String
tenant_of (some header) labels = ok header
tenant_of none (slug ∷ domain ∷ ext ∷ rest) = if slug == "" then throw tenant_required else ok slug
tenant_of none (slug ∷ domain ∷ []) = throw tenant_required
tenant_of none (slug ∷ []) = throw tenant_required
tenant_of none [] = throw tenant_required

resolve_tenant_of_labels :
    (labels : List String) (q : Request)
    → extract_subdomain q ≡ first_of_three labels
    → resolve_tenant q ≡ tenant_of (truthy q.x_tenant_id) labels
unfolding resolve_tenant tenant_of
resolve_tenant_of_labels [] q h = ground (arith, h)
resolve_tenant_of_labels (a ∷ []) q h = ground (arith, h)
resolve_tenant_of_labels (a ∷ b ∷ []) q h = ground (arith, h)
resolve_tenant_of_labels (a ∷ b ∷ c ∷ labels) q h = ground (arith, h)

-- For a host with the given labels, the middleware attaches the header if it is not empty, else the
-- first of at least three labels if it is not empty, and else refuses the request.
pub resolve_tenant-join_dots :
    (labels : List String) (q : Request)
    → all is_label labels ≡ true
    → q.host ≡ some (join_dots labels)
    → resolve_tenant q ≡ tenant_of (truthy q.x_tenant_id) labels
unfolding extract_subdomain join_dots
resolve_tenant-join_dots [] q h host = resolve_tenant_of_labels [] q (rw host refl)
resolve_tenant-join_dots (a ∷ labels) q h host =
    resolve_tenant_of_labels (a ∷ labels) q (rw (host, split_dots-join_dots a labels h) refl)
