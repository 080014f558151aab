-- ===== src/Dto/Webhooks/Limits.antt =====
-- The limit on attempts in the bodies that are let through, and in the rows that the webhook service
-- writes.
use multi_tenant_saas_gatewa.Common.{
  ℕ, String, ◌≡◌, refl, ap, ◌∙◌, ◌⊎◌, inl, inr, Bool, true, false, Option, none, some, ◌==◌, get_or,
  arith, if◌then◌else◌, Option-cases, Bool-cases,
}
use multi_tenant_saas_gatewa.Common.Outcome.{Result, ok, throw}
use multi_tenant_saas_gatewa.Database.{Entity, Repository, IsLawful}
use multi_tenant_saas_gatewa.Database.Laws.{Result-cases, find_one_cases}
use multi_tenant_saas_gatewa.Webhooks.{
  Webhook, WebhookEvent, CreateWebhookDto, UpdateWebhookDto, Net, State, deliver, request, assign,
  new_webhook, generate_secret, with_id,
}
use multi_tenant_saas_gatewa.Webhooks
use multi_tenant_saas_gatewa.Webhooks.Tenancy.{attempts_table}
use multi_tenant_saas_gatewa.Dto.{
  Validators, Fields, present, Holds, Holds-bind, Holds-some, optional_int, that, number_of,
  number_type, between,
}
use multi_tenant_saas_gatewa.Dto.Tenants.{create_webhook_dto, update_webhook_dto}

-- The limit on attempts of what is let through.
abbrev pub within : ℕ → Bool
within = between 1 5

that_passed : {A : Type 0} (p : A → Bool) (o : Option A) (a : A) → that p o ≡ some a → p a ≡ true
that_passed p none a h = absurd (ground (arith, h))
that_passed p (some b) a h = elim (Bool-cases (p b)) [
  | inl good ↦ ground (arith, good, h, ap p)
  | inr bad ↦ absurd (ground (arith, bad, h))
]

optional_int_passed :
    (V : Validators) (fields : Fields) (name : String) (p : ℕ → Bool) (n : ℕ)
    → optional_int V fields name p ≡ some (some n)
    → p n ≡ true
optional_int_passed V fields name p n h = elim (Option-cases (present name fields)) [
  | inl missing ↦ absurd (ground (arith, h, missing))
  | inr (v, found) ↦ elim (Option-cases (that p (number_of (V.convert number_type v)))) [
    | inl bad ↦ absurd (ground (arith, h, found, bad))
    | inr (m, good) ↦
        let same : m ≡ n = ground (arith, h, found, good) in
        that_passed p (number_of (V.convert number_type v)) n (good ∙ ap (λ x. some x) same)
  ]
]

module _ (V : Validators) (body : Fields) where
  -- The limit of a body that was let through, where it names one.
  pub create_webhook_dto-within :
      Holds
        (λ dto. (n : ℕ) → dto.max_retries ≡ some n → within n ≡ true)
        (create_webhook_dto V body)
  unfolding create_webhook_dto
  create_webhook_dto-within = Holds-bind _ _ λ _ _. Holds-bind _ _ λ url _.
      Holds-bind _ _ λ description _. Holds-bind _ _ λ events _.
        Holds-bind (optional_int V body "maxRetries" within) _ λ max_retries is_limit.
          Holds-some _ (λ n named.
            optional_int_passed V body "maxRetries" within n (is_limit ∙ ap (λ x. some x) named))

  pub update_webhook_dto-within :
      Holds
        (λ dto. (n : ℕ) → dto.max_retries ≡ some n → within n ≡ true)
        (update_webhook_dto V body)
  unfolding update_webhook_dto
  update_webhook_dto-within = Holds-bind _ _ λ _ _. Holds-bind _ _ λ url _.
      Holds-bind _ _ λ description _. Holds-bind _ _ λ events _. Holds-bind _ _ λ is_active _.
        Holds-bind (optional_int V body "maxRetries" within) _ λ max_retries is_limit.
          Holds-some _ (λ n named.
            optional_int_passed V body "maxRetries" within n (is_limit ∙ ap (λ x. some x) named))

module _ (R : Repository Webhook) (L : IsLawful R) (net : Net) where
  -- Every stored webhook has a limit that a body may name.
  abbrev pub Limited : R.Table → Type 0
  Limited t =
      (i : String) (w : Entity Webhook) → L.row t i ≡ some w → within w.own.max_retries ≡ true

  put-Limited :
      (e : Entity Webhook) (t t' : R.Table)
      → ((i : String) → L.row t' i ≡ (if e.id == i then some e else L.row t i))
      → within e.own.max_retries ≡ true
      → Limited t
      → Limited t'
  put-Limited e t t' rows good h i w row = ground (arith, rows i, good, row, h i w)

  insert-Limited :
      (f : Webhook) (t t' : R.Table) (e : Entity Webhook)
      → R.insert f t ≡ ok (e, t')
      → within f.max_retries ≡ true
      → Limited t
      → Limited t'
  insert-Limited f t t' e done good =
      let (fresh, own, rows, counted) = L.insert_ok f t t' e done in
      put-Limited e t t' rows (rw own good)

  save-Limited :
      (e x old : Entity Webhook) (t t' : R.Table)
      → L.row t e.id ≡ some old
      → R.save e t ≡ ok (x, t')
      → within e.own.max_retries ≡ true
      → Limited t
      → Limited t'
  save-Limited e x old t t' row done good =
      let (same, rows, counted) = L.save_ok e x old t t' row done in
      put-Limited x t t' rows (rw (same.same_own) good)

  remove-Limited :
      (e : Entity Webhook) (t t' : R.Table)
      → L.row t e.id ≡ some e
      → R.remove e t ≡ ok (tt, t')
      → Limited t
      → Limited t'
  remove-Limited e t t' row done h i w at =
      let (rows, counted) = L.remove_ok e e t t' row done in ground (arith, rows i, at, h i w)

  -- A webhook of a tenant that is loaded, or none.
  module _ (tenant_id : String) (s : State R) (h : Limited s.table) where
    pub create-Limited :
        (dto : CreateWebhookDto) (random_bytes : String)
        → within (get_or dto.max_retries 3) ≡ true
        → Limited (Webhooks.create R tenant_id dto random_bytes s).1.table
    unfolding Webhooks.create
    create-Limited dto random_bytes good =
        elim (Result-cases
          (R.insert (new_webhook tenant_id dto (generate_secret random_bytes)) s.table)) [
            | inl (e, lost) ↦ rw lost h
            | inr ((e, t), done) ↦ rw done (insert-Limited _ s.table t e done good h)
          ]

    pub update-Limited :
        (id : String) (dto : UpdateWebhookDto)
        → ((n : ℕ) → dto.max_retries ≡ some n → within n ≡ true)
        → Limited (Webhooks.update R tenant_id id dto s).1.table
    unfolding Webhooks.update
    update-Limited id dto good =
        elim (find_one_cases L (with_id tenant_id id) id (with_id tenant_id id) s.table) [
          | inl missing ↦ rw missing h
          | inr (w, found, row, passed) ↦ elim (Bool-cases dto.null_column) [
            | inl nulled ↦ rw (found, nulled) h
            | inr set ↦ elim (Result-cases (R.save (record w { own = assign dto w.own }) s.table)) [
              | inl (e, lost) ↦ rw (found, set, lost) h
              | inr ((e, t), done) ↦
                  rw (found, set, done)
                    (save-Limited (record w { own = assign dto w.own }) e w s.table t row done
                      (assigned (Option-cases dto.max_retries) w row) h)
            ]
          ]
        ]
      where
        assigned :
            (dto.max_retries ≡ none) ⊎ ((n : ℕ) × (dto.max_retries ≡ some n))
            → (w : Entity Webhook) → L.row s.table w.id ≡ some w
            → within (assign dto w.own).max_retries ≡ true
        assigned (inl kept) w row = rw kept (h w.id w row)
        assigned (inr (n, named)) w row = rw named (good n named)

    pub delete-Limited : (id : String) → Limited (Webhooks.delete R tenant_id id s).1.table
    unfolding Webhooks.delete
    delete-Limited id =
        elim (find_one_cases L (with_id tenant_id id) id (with_id tenant_id id) s.table) [
          | inl missing ↦ rw missing h
          | inr (w, found, row, passed) ↦ elim (Result-cases (R.remove w s.table)) [
            | inl (e, lost) ↦ rw (found, lost) h
            | inr ((_, t), done) ↦ rw (found, done) (remove-Limited w s.table t row done h)
          ]
        ]

    pub rotate_secret-Limited :
        (id random_bytes : String)
        → Limited (Webhooks.rotate_secret R tenant_id id random_bytes s).1.table
    unfolding Webhooks.rotate_secret
    rotate_secret-Limited id random_bytes =
        elim (find_one_cases L (with_id tenant_id id) id (with_id tenant_id id) s.table) [
          | inl missing ↦ rw missing h
          | inr (w, found, row, passed) ↦
              let changed : Entity Webhook = record w {
                own = record (w.own) { secret = generate_secret random_bytes };
              } in
              elim (Result-cases (R.save changed s.table)) [
                | inl (e, lost) ↦ rw (found, lost) h
                | inr ((e, t), done) ↦
                    rw (found, done) (save-Limited changed e w s.table t row done (h w.id w row) h)
              ]
        ]

    deliver-Limited :
        (w : Entity Webhook) (event : WebhookEvent) (payload : String) (now : ℕ → ℕ)
        → L.row s.table w.id ≡ some w
        → Limited (deliver R net w event payload now s).1.table
    unfolding deliver
    deliver-Limited w event payload now row =
        elim (attempts_table R L net (request R net w event payload (now 0)) now w.own.max_retries 0
          w w none s
          (record {
            same_id = refl;
            same_tenant = refl;
            same_active = refl;
            same_events = refl;
            same_retries = refl;
          })) [
            | inl kept ↦ rw kept h
            | inr (e, x, same, done) ↦
                save-Limited e x w s.table _ (rw (same.same_id) row) done
                  (rw (same.same_retries) (h w.id w row)) h
          ]

    -- The answer of a test delivery is made from what the delivery gave.
    answered-Limited :
        (r : Result (Unit {0})) (u : State R)
        → Limited u.table
        → Limited (
            (elim r as (λ x. Result Bool × State R) [
              | ok _ ↦ (ok true, u)
              | throw _ ↦ (ok false, u)
            ]).1.table)
    answered-Limited (ok _) u k = k
    answered-Limited (throw _) u k = k

    pub test_delivery-Limited :
        (id : String) (event : WebhookEvent) (payload : String) (now : ℕ → ℕ)
        → Limited (Webhooks.test_delivery R net tenant_id id event payload now s).1.table
    unfolding Webhooks.test_delivery
    test_delivery-Limited id event payload now =
        elim (find_one_cases L (with_id tenant_id id) id (with_id tenant_id id) s.table) [
          | inl missing ↦ rw missing h
          | inr (w, found, row, passed) ↦ rw found (
              answered-Limited ((deliver R net w event payload now s).0)
                ((deliver R net w event payload now s).1) (deliver-Limited w event payload now row))
        ]

    pub find_one-Limited : (id : String) → Limited (Webhooks.find_one R tenant_id id s).1.table
    unfolding Webhooks.find_one
    find_one-Limited id =
        elim (find_one_cases L (with_id tenant_id id) id (with_id tenant_id id) s.table) [
          | inl missing ↦ rw missing h
          | inr (w, found, row, passed) ↦ rw found h
        ]
