-- ===== src/ApiKeys/Validation.antt =====
-- Which credentials are accepted.
use multi_tenant_saas_gatewa.Common.{
  ℕ, String, ◌≡◌, refl, inl, inr, true, false, Option, none, some, arith, ◌⊎◌, Bool-cases,
}
use multi_tenant_saas_gatewa.Common.Outcome.{Result, ok, throw, Exception}
use multi_tenant_saas_gatewa.Database.{Entity, Repository, IsLawful}
use multi_tenant_saas_gatewa.Database.Laws.{save_cases, find_one_cases}
use multi_tenant_saas_gatewa.ApiKeys.{
  ApiKey, active, expired, Config, with_key, is_active, is_expired, check, touch, expire,
  should_update_last_used, validate_api_key,
}
use multi_tenant_saas_gatewa.ApiKeys.Limit.{UniqueKeys}

module _ (hmac : String → String → String) (R : Repository ApiKey) (L : IsLawful R)
    (cfg : Config) where
  -- The credentials belong to a stored key that is active, has not expired, and whose secret has the
  -- hash that is stored.
  pub record Genuine (t : R.Table) (key secret : String) (now : ℕ) (e : Entity ApiKey)
      : Type 0 where
    pub stored : L.row t e.id ≡ some e
    pub same_key : e.own.key ≡ key
    pub alive : e.own.status ≡ active
    pub current : is_expired hmac R cfg e.own.expires_at now ≡ false
    pub same_hash : hmac cfg.hash_secret secret ≡ e.own.secret

  check_sound :
      (e : Entity ApiKey) (secret : String) (expiry_now asked now : ℕ) (t t' : R.Table)
      (k : Entity ApiKey)
      → L.row t e.id ≡ some e
      → check hmac R cfg e secret expiry_now asked now t ≡ (ok (some k), t')
      → (e.own.status ≡ active)
        × (is_expired hmac R cfg e.own.expires_at expiry_now ≡ false)
        × (hmac cfg.hash_secret secret ≡ e.own.secret)
        × (k.id ≡ e.id)
        × (k.own.tenant_id ≡ e.own.tenant_id)
        × (k.own.scopes ≡ e.own.scopes)
  unfolding check touch expire
  check_sound e secret expiry_now asked now t t' k row h = ground (
    arith,
    save_cases L (with_key secret) secret
        (record e { own = record (e.own) { last_used_at = some now } }) e t,
  )

  -- Only genuine credentials are accepted, and the caller gets the identity, tenant and scopes that
  -- are stored with the key.
  pub validate_sound :
      (key secret : String) (expiry_now asked now : ℕ) (t t' : R.Table) (k : Entity ApiKey)
      → validate_api_key hmac R cfg key secret expiry_now asked now t ≡ (ok (some k), t')
      → (e : Entity ApiKey) × Genuine t key secret expiry_now e
        × (k.id ≡ e.id)
        × (k.own.tenant_id ≡ e.own.tenant_id)
        × (k.own.scopes ≡ e.own.scopes)
  unfolding validate_api_key
  validate_sound key secret expiry_now asked now t t' k h =
      elim (find_one_cases L (with_key key) key (with_key key) t) [
        | inl missing ↦ absurd (ground arith)
        | inr (e, found, row, passed) ↦
            let (alive, current, same_hash, same_id, same_tenant, same_scopes) =
              check_sound e secret expiry_now asked now t t' k row
                (rw (found, validate_api_key) at h) in
            (
              e,
              record {
                stored = row;
                same_key = ground arith;
                alive = alive;
                current = current;
                same_hash = same_hash;
              },
              same_id,
              same_tenant,
              same_scopes,
            )
      ]

  -- The key with the time of its use.
  abbrev pub used_at : Entity ApiKey → ℕ → Entity ApiKey
  used_at e now = record e { own = record (e.own) { last_used_at = some now } }

  -- The answer is the key, as it was or with the time of its use, or the exception with which the write
  -- of that time failed.
  abbrev pub Admitted : Entity ApiKey → ℕ → Result (Option (Entity ApiKey)) → R.Table → Type 0
  Admitted e now answer t =
      ((k : Entity ApiKey) × (answer ≡ ok (some k))
        × (k.id ≡ e.id)
        × ((k.own ≡ e.own) ⊎ (k.own ≡ (used_at e now).own)))
      ⊎ ((x : Exception) × (answer ≡ throw x) × (R.save (used_at e now) t ≡ throw x))

  touch-Admitted :
      (e : Entity ApiKey) (asked now : ℕ) (t : R.Table)
      → L.row t e.id ≡ some e
      → Admitted e now (touch hmac R cfg e asked now t).0 t
  unfolding touch
  touch-Admitted e asked now t row =
      elim (Bool-cases (should_update_last_used hmac R cfg e.own.last_used_at asked)) [
        | inr recent ↦ inl (e, rw recent refl, refl, inl refl)
        | inl due ↦ elim (save_cases L (with_key "") e.id (used_at e now) e t row) [
          | inl (x, failed) ↦ inr (x, rw (due, failed) refl, failed)
          | inr (k, t', done, id, own, _, _) ↦ inl (k, rw (due, done) refl, id, inr own)
        ]
      ]

  check-touch :
      (e : Entity ApiKey) (secret : String) (expiry_now asked now : ℕ) (t : R.Table)
      → e.own.status ≡ active
      → is_expired hmac R cfg e.own.expires_at expiry_now ≡ false
      → hmac cfg.hash_secret secret ≡ e.own.secret
      → check hmac R cfg e secret expiry_now asked now t ≡ touch hmac R cfg e asked now t
  unfolding check
  check-touch e secret expiry_now asked now t alive current same_hash = ground arith

  -- With unique keys, a search by key finds the row with the key.
  pub find_one_of_key :
      (key : String) (t : R.Table) (e : Entity ApiKey)
      → UniqueKeys hmac R L cfg t
      → L.row t e.id ≡ some e
      → e.own.key ≡ key
      → R.find_one (with_key key) t ≡ some e
  find_one_of_key key t e u row same_key =
      elim (find_one_cases L (with_key key) key (with_key key) t) [
        | inl missing ↦ absurd (ground (arith, L.find_one_none (with_key key) t e.id e))
        | inr (k, found, stored, passed) ↦
            let same : k ≡ e = ground (arith, u k.id e.id k e) in rw (← same) found
      ]

  -- Genuine credentials are not refused, where keys are unique: the answer is the stored key, as it was
  -- or with the time of this use, or the exception with which the write of that time failed.
  pub validate_complete :
      (key secret : String) (expiry_now asked now : ℕ) (t : R.Table) (e : Entity ApiKey)
      → UniqueKeys hmac R L cfg t
      → Genuine t key secret expiry_now e
      → Admitted e now (validate_api_key hmac R cfg key secret expiry_now asked now t).0 t
  unfolding validate_api_key
  validate_complete key secret expiry_now asked now t e u g =
      rw (find_one_of_key key t e u g.stored g.same_key, validate_api_key)
        (rw (check-touch e secret expiry_now asked now t g.alive g.current g.same_hash)
          (touch-Admitted e asked now t g.stored))

  -- What the use of a key past its date leaves behind: the write failed and the table is as it was,
  -- or the key is refused and its row says EXPIRED, all else in it as before.
  abbrev pub Expires : R.Table → Entity ApiKey → Result (Option (Entity ApiKey)) × R.Table → Type 0
  Expires t e (throw x, t') = t' ≡ t
  Expires t e (ok none, t') =
      (k : Entity ApiKey) × (L.row t' e.id ≡ some k) × (k.own ≡ record (e.own) { status = expired })
  Expires t e (ok (some k), t') = ⊥

  check-Expires :
      (e : Entity ApiKey) (secret : String) (expiry_now asked now : ℕ) (t : R.Table)
      → L.row t e.id ≡ some e
      → e.own.status ≡ active
      → is_expired hmac R cfg e.own.expires_at expiry_now ≡ true
      → Expires t e (check hmac R cfg e secret expiry_now asked now t)
  unfolding check expire
  check-Expires e secret expiry_now asked now t row alive over =
      elim (save_cases L (with_key secret) e.id
        (record e { own = record (e.own) { status = expired } }) e t row) [
          | inl (x, failed) ↦ rw (alive, over, failed) refl
          | inr (k, t', done, same_id, same_own, now_row, _) ↦
              rw (alive, over, done) (k, ground arith, same_own)
        ]

  -- A key with the status ACTIVE that is past its date is refused whatever the secret, and is marked
  -- as expired where the write succeeds.
  pub validate-Expires :
      (key secret : String) (expiry_now asked now : ℕ) (t : R.Table) (e : Entity ApiKey)
      → UniqueKeys hmac R L cfg t
      → L.row t e.id ≡ some e
      → e.own.key ≡ key
      → e.own.status ≡ active
      → is_expired hmac R cfg e.own.expires_at expiry_now ≡ true
      → Expires t e (validate_api_key hmac R cfg key secret expiry_now asked now t)
  unfolding validate_api_key
  validate-Expires key secret expiry_now asked now t e u row same_key alive over =
      rw (find_one_of_key key t e u row same_key, validate_api_key)
        (check-Expires e secret expiry_now asked now t row alive over)

  -- A key that is not active is refused whatever the secret, and nothing is written.
  pub validate_dead :
      (key secret : String) (expiry_now asked now : ℕ) (t : R.Table) (e : Entity ApiKey)
      → UniqueKeys hmac R L cfg t
      → L.row t e.id ≡ some e
      → e.own.key ≡ key
      → is_active e.own.status ≡ false
      → validate_api_key hmac R cfg key secret expiry_now asked now t ≡ (ok none, t)
  unfolding validate_api_key
  validate_dead key secret expiry_now asked now t e u row same_key dead =
      rw (find_one_of_key key t e u row same_key, validate_api_key, dead)
