-- ===== src/ApiKeys/Steps.antt =====
-- What one call of the API key service does to the table, as a step relation: each operation
-- leaves it alone, adds a key, saves a changed key, or removes one.
use multi_tenant_saas_gatewa.Common.{
  ℕ, ◌<◌, String, ◌≡◌, refl, inl, inr, true, none, some, ◌==◌, List, [], ◌∷◌, leb, arith, subst,
  Bool-cases, Option-cases,
}
use multi_tenant_saas_gatewa.Common.Outcome.{ok, M, pure, ◌>>=◌}
use multi_tenant_saas_gatewa.Database.{Entity, Repository, IsLawful}
use multi_tenant_saas_gatewa.Database.Laws.{Result-cases, find_one_cases}
use multi_tenant_saas_gatewa.ApiKeys.{
  ApiKey, ApiKeyStatus, active, revoked, expired, Config, CreateApiKeyDto, UpdateApiKeyDto,
  active_of, with_key, with_id, is_active, is_expired, hash_secret, should_update_last_used,
  new_key, generate_key_and_secret, create, find_all, find_one, update, revoke, delete, rotate,
  validate_api_key, load, save, apply_update, check, touch, expire,
}

-- The life of a key: it may be revoked at any time, and expires only while active.
pub data Transition : ApiKeyStatus → ApiKeyStatus → Type 0 where
  stays : {s : ApiKeyStatus} → Transition s s
  revokes : {s : ApiKeyStatus} → Transition s revoked
  expires : Transition active expired

expires_of_active : (s : ApiKeyStatus) → is_active s ≡ true → Transition s expired
expires_of_active active h = expires
expires_of_active revoked h = cc
expires_of_active expired h = cc

-- A saved key keeps its id, tenant and key.
pub record Allowed (old new : Entity ApiKey) : Type 0 where
  pub same_id : new.id ≡ old.id
  pub same_tenant : new.own.tenant_id ≡ old.own.tenant_id
  pub same_key : new.own.key ≡ old.own.key
  pub transition : Transition old.own.status new.own.status

pub data Call : Type 0 where
  creates : String → CreateApiKeyDto → String → String → Call
  finds_all : String → Call
  finds_one : String → String → Call
  updates : String → String → UpdateApiKeyDto → Call
  revokes : String → String → Call
  deletes : String → String → Call
  rotates : String → String → String → String → Call
  validates : String → String → ℕ → ℕ → ℕ → Call

module _ (hmac : String → String → String) (R : Repository ApiKey) (L : IsLawful R)
    (cfg : Config) where
  -- A step that touches rows of the tenant `owner` only.
  pub data Step (owner : String) (t t' : R.Table) : Type 0 where
    unchanged : t' ≡ t → Step owner t t'
    created :
        (k : ApiKey) (e : Entity ApiKey)
        → k.tenant_id ≡ owner
        → k.status ≡ active
        → R.count (active_of k.tenant_id) t < cfg.max_active
        → R.find_one (with_key k.key) t ≡ none
        → R.insert k t ≡ ok (e, t')
        → Step owner t t'
    saved :
        (old new e : Entity ApiKey)
        → L.row t old.id ≡ some old
        → old.own.tenant_id ≡ owner
        → Allowed old new
        → R.save new t ≡ ok (e, t')
        → Step owner t t'
    removed :
        (old : Entity ApiKey)
        → L.row t old.id ≡ some old
        → old.own.tenant_id ≡ owner
        → R.remove old t ≡ ok (tt, t')
        → Step owner t t'

  -- The table after a call; the answer is forgotten.
  unfoldable pub perform : Call → R.Table → R.Table
  perform (creates tenant_id dto key_hex secret_hex) t =
      (create hmac R cfg tenant_id dto key_hex secret_hex t).1
  perform (finds_all tenant_id) t = (find_all hmac R cfg tenant_id t).1
  perform (finds_one tenant_id key_id) t = (find_one hmac R cfg tenant_id key_id t).1
  perform (updates tenant_id key_id dto) t = (update hmac R cfg tenant_id key_id dto t).1
  perform (revokes tenant_id key_id) t = (revoke hmac R cfg tenant_id key_id t).1
  perform (deletes tenant_id key_id) t = (delete hmac R cfg tenant_id key_id t).1
  perform (rotates tenant_id key_id key_hex secret_hex) t =
      (rotate hmac R cfg tenant_id key_id key_hex secret_hex t).1
  perform (validates key secret expiry_now asked now) t =
      (validate_api_key hmac R cfg key secret expiry_now asked now t).1

  -- Whose keys a call may touch: those of the caller's tenant, or the tenant of the presented key.
  unfoldable pub scope : Call → R.Table → String
  scope (creates tenant_id dto key_hex secret_hex) t = tenant_id
  scope (finds_all tenant_id) t = tenant_id
  scope (finds_one tenant_id key_id) t = tenant_id
  scope (updates tenant_id key_id dto) t = tenant_id
  scope (revokes tenant_id key_id) t = tenant_id
  scope (deletes tenant_id key_id) t = tenant_id
  scope (rotates tenant_id key_id key_hex secret_hex) t = tenant_id
  scope (validates key secret expiry_now asked now) t = elim (R.find_one (with_key key) t) [
    | none ↦ ""
    | some k ↦ k.own.tenant_id
  ]

  unfoldable pub run : List Call → R.Table → R.Table
  run [] t = t
  run (c ∷ cs) t = run cs (perform c t)

  save-Step :
      {A : Type 0} (old new : Entity ApiKey) (g : Entity ApiKey → A) (t : R.Table)
      → L.row t old.id ≡ some old
      → Allowed old new
      → Step old.own.tenant_id t ((save hmac R cfg new >>= λ e. pure (g e)) t).1
  save-Step old new g t row a = elim (Result-cases (R.save new t)) [
    | inl (x, failed) ↦ rw failed (unchanged refl)
    | inr ((e, t'), done) ↦ rw done (saved old new e row refl a done)
  ]

  load-Step :
      {A : Type 0} (tenant_id key_id : String) (t : R.Table) (m : Entity ApiKey → M R.Table A)
      → ((k : Entity ApiKey) → L.row t k.id ≡ some k → Step k.own.tenant_id t (m k t).1)
      → Step tenant_id t ((load hmac R cfg tenant_id key_id >>= m) t).1
  load-Step tenant_id key_id t m h =
      elim (find_one_cases L (with_id tenant_id key_id) key_id (with_id tenant_id key_id) t) [
        | inl missing ↦ rw missing (unchanged refl)
        | inr (k, found, row, passed) ↦
            let mine : k.own.tenant_id ≡ tenant_id = ground arith in
            rw found (subst (λ T. Step T t (m k t).1) mine (h k row))
      ]

  create-Step :
      (tenant_id : String) (dto : CreateApiKeyDto) (key_hex secret_hex : String) (t : R.Table)
      → Step tenant_id t (create hmac R cfg tenant_id dto key_hex secret_hex t).1
  unfolding create
  create-Step tenant_id dto key_hex secret_hex t =
      elim (Bool-cases (leb cfg.max_active (R.count (active_of tenant_id) t))) [
        | inl full ↦ rw full (unchanged refl)
        | inr room ↦ rw room (elim (Option-cases (R.find_one (with_key key) t)) [
          | inr (taken, e) ↦ rw e (unchanged refl)
          | inl free ↦ rw free (elim (Result-cases (R.insert k t)) [
            | inl (x, failed) ↦ rw failed (unchanged refl)
            | inr ((e, t'), done) ↦ rw done (created k e refl refl (ground arith) free done)
          ])
        ])
      ]
    where
      key : String
      key = (generate_key_and_secret hmac R cfg key_hex secret_hex).0

      k : ApiKey
      k = new_key tenant_id dto key (generate_key_and_secret hmac R cfg key_hex secret_hex).2

  check-Step :
      (k : Entity ApiKey) (secret : String) (expiry_now asked now : ℕ) (t : R.Table)
      → L.row t k.id ≡ some k
      → Step k.own.tenant_id t (check hmac R cfg k secret expiry_now asked now t).1
  unfolding check touch expire
  check-Step k secret expiry_now asked now t row = elim (Bool-cases (is_active k.own.status)) [
    | inr dead ↦ rw dead (unchanged refl)
    | inl alive ↦ rw alive (elim (Bool-cases (is_expired hmac R cfg k.own.expires_at expiry_now)) [
      | inl over ↦ rw over (
          save-Step k _ _ t row (record {
            same_id = refl;
            same_tenant = refl;
            same_key = refl;
            transition = expires_of_active k.own.status alive;
          }))
      | inr valid ↦ rw valid (elim (Bool-cases (hash_secret hmac R cfg secret == k.own.secret)) [
        | inr wrong ↦ rw wrong (unchanged refl)
        | inl right ↦
            rw right
              (elim (Bool-cases (should_update_last_used hmac R cfg k.own.last_used_at asked)) [
                | inr recent ↦ rw recent (unchanged refl)
                | inl due ↦ rw due (
                    save-Step k _ _ t row (record {
                      same_id = refl;
                      same_tenant = refl;
                      same_key = refl;
                      transition = stays;
                    }))
              ])
      ])
    ])
  ]

  validate-Step :
      (key secret : String) (expiry_now asked now : ℕ) (t : R.Table)
      → Step
          (scope (validates key secret expiry_now asked now) t)
          t
          (validate_api_key hmac R cfg key secret expiry_now asked now t).1
  unfolding validate_api_key scope
  validate-Step key secret expiry_now asked now t =
      elim (find_one_cases L (with_key key) key (with_key key) t) [
        | inl missing ↦ rw (missing, validate_api_key, scope) (unchanged refl)
        | inr (k, found, row, _) ↦
            rw (found, validate_api_key, scope) (check-Step k secret expiry_now asked now t row)
      ]

  -- Every call of the service is a step.
  pub perform-Step : (c : Call) (t : R.Table) → Step (scope c t) t (perform c t)
  unfolding perform scope find_all find_one update revoke delete rotate apply_update
  perform-Step (creates tenant_id dto key_hex secret_hex) t =
      create-Step tenant_id dto key_hex secret_hex t
  perform-Step (finds_all tenant_id) t = unchanged refl
  perform-Step (finds_one tenant_id key_id) t =
      load-Step tenant_id key_id t _ λ k row. unchanged refl
  perform-Step (updates tenant_id key_id dto) t = load-Step tenant_id key_id t _ λ k row.
      save-Step k _ _ t row
        (record { same_id = refl; same_tenant = refl; same_key = refl; transition = stays })
  perform-Step (revokes tenant_id key_id) t = load-Step tenant_id key_id t _ λ k row.
      save-Step k _ _ t row
        (record { same_id = refl; same_tenant = refl; same_key = refl; transition = revokes })
  perform-Step (deletes tenant_id key_id) t = load-Step tenant_id key_id t _ λ k row.
      elim (Result-cases (R.remove k t)) [
        | inl (x, failed) ↦ rw failed (unchanged refl)
        | inr ((_, t'), done) ↦ rw done (removed k row refl done)
      ]
  perform-Step (rotates tenant_id key_id key_hex secret_hex) t =
      load-Step tenant_id key_id t _ λ k row.
        save-Step k _ _ t row
          (record { same_id = refl; same_tenant = refl; same_key = refl; transition = stays })
  perform-Step (validates key secret expiry_now asked now) t =
      validate-Step key secret expiry_now asked now t
