-- ===== src/ApiKeys/Rotation.antt =====
-- Rotation of the secret: the new one is returned once, and only it is accepted from then on.
use multi_tenant_saas_gatewa.Common.{
  ℕ, String, ◌≡◌, refl, ap, subst, sym, ◌∙◌, inl, inr, some, arith,
}
use multi_tenant_saas_gatewa.Common.Outcome.{Result, ok, throw}
use multi_tenant_saas_gatewa.Database.{Entity, Repository, IsLawful}
use multi_tenant_saas_gatewa.Database.Laws.{save_cases, find_one_of_id}
use multi_tenant_saas_gatewa.ApiKeys.{
  ApiKey, Config, ApiKeyResponseDto, active_of, with_id, validate_api_key, rotate,
  map_to_response_dto,
}
use multi_tenant_saas_gatewa.ApiKeys.Limit.{UniqueKeys, Step-UniqueKeys}
use multi_tenant_saas_gatewa.ApiKeys.Steps.{rotates, perform, perform-Step}
use multi_tenant_saas_gatewa.ApiKeys.Validation.{validate_sound, Genuine}

module _ (hmac : String → String → String) (R : Repository ApiKey) (L : IsLawful R)
    (cfg : Config) where
  -- What `rotate` does to a stored key: it fails and changes nothing, or it answers with the new
  -- secret, and the row differs in the stored hash alone.
  abbrev pub Rotates :
      R.Table → Entity ApiKey → String → Result ApiKeyResponseDto × R.Table → Type 0
  Rotates t e secret_hex (throw x, t') = t' ≡ t
  Rotates t e secret_hex (ok dto, t') =
      (dto.secret ≡ some secret_hex)
      × (k : Entity ApiKey) × (L.row t' e.id ≡ some k)
      × (k.own ≡ record (e.own) { secret = hmac cfg.hash_secret secret_hex })

  -- A rotation of a stored key in the name of its tenant fails and changes nothing, or it answers with
  -- the new secret and leaves a row that differs in the stored hash alone.
  pub rotate-Rotates :
      (key_hex secret_hex : String) (t : R.Table) (e : Entity ApiKey)
      → L.row t e.id ≡ some e
      → Rotates t e secret_hex (rotate hmac R cfg e.own.tenant_id e.id key_hex secret_hex t)
  unfolding rotate map_to_response_dto
  rotate-Rotates key_hex secret_hex t e row =
      let found : R.find_one (with_id e.own.tenant_id e.id) t ≡ some e =
        find_one_of_id L (with_id e.own.tenant_id e.id) t e.id e (λ k good. ground arith) row
          (ground arith) in
      elim (save_cases L (active_of e.id) e.id rotated e t row) [
        | inl (x, failed) ↦ rw (found, failed) refl
        | inr (k, t', done, kept_id, kept, now_row, _) ↦
            rw (found, done) (refl, k, ground arith, kept)
      ]
    where
      rotated : Entity ApiKey
      rotated = record e { own = record (e.own) { secret = hmac cfg.hash_secret secret_hex } }

  rotated_hash :
      (secret secret_hex : String) (now : ℕ) (t : R.Table) (e new x : Entity ApiKey)
      → UniqueKeys hmac R L cfg t
      → L.row t e.id ≡ some new
      → new.own ≡ record (e.own) { secret = hmac cfg.hash_secret secret_hex }
      → Genuine hmac R L cfg t e.own.key secret now x
      → hmac cfg.hash_secret secret ≡ hmac cfg.hash_secret secret_hex
  rotated_hash secret secret_hex now t e new x u there own g =
      let same : x.id ≡ e.id =
        u x.id e.id x new g.stored there (g.same_key ∙ sym (ap (λ a. a.key) own)) in
      ground (arith, g.stored, g.same_hash)

  -- After a rotation that succeeded on a table whose keys are unique, a secret that is accepted with
  -- the key has the hash of the new secret.
  pub rotate-validate :
      (key_hex secret_hex secret : String) (expiry_now asked now : ℕ) (t t' t'' : R.Table)
      (e k : Entity ApiKey) (dto : ApiKeyResponseDto)
      → UniqueKeys hmac R L cfg t
      → L.row t e.id ≡ some e
      → rotate hmac R cfg e.own.tenant_id e.id key_hex secret_hex t ≡ (ok dto, t')
      → validate_api_key hmac R cfg e.own.key secret expiry_now asked now t' ≡ (ok (some k), t'')
      → hmac cfg.hash_secret secret ≡ hmac cfg.hash_secret secret_hex
  unfolding perform
  rotate-validate key_hex secret_hex secret expiry_now asked now t t' t'' e k dto u row done
        accepted =
      let (_, new, there, own) : Rotates t e secret_hex (ok dto, t') =
        subst (Rotates t e secret_hex) done (rotate-Rotates key_hex secret_hex t e row) in
      let u' : UniqueKeys hmac R L cfg t' = subst (UniqueKeys hmac R L cfg) (ap (λ r. r.1) done) (
        Step-UniqueKeys hmac R L cfg
          (perform-Step hmac R L cfg (rotates e.own.tenant_id e.id key_hex secret_hex) t) u) in
      let (x, g, _, _, _) =
        validate_sound hmac R L cfg e.own.key secret expiry_now asked now t' t'' k accepted in
      rotated_hash secret secret_hex expiry_now t' e new x u' there own g
