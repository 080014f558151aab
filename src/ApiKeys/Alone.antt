-- ===== src/ApiKeys/Alone.antt =====
-- A create that nothing interrupts.
use multi_tenant_saas_gatewa.Common.{
  String, ◌≡◌, refl, inl, inr, [], ◌∷◌, leb, Bool-cases, Option-cases,
}
use multi_tenant_saas_gatewa.Database.{Repository, IsLawful}
use multi_tenant_saas_gatewa.Database.Laws.{Result-cases}
use multi_tenant_saas_gatewa.ApiKeys.{
  ApiKey, Config, CreateApiKeyDto, active_of, with_key, new_key, generate_key_and_secret, create,
}
use multi_tenant_saas_gatewa.ApiKeys.Steps.{creates}
use multi_tenant_saas_gatewa.ApiKeys.Concurrent.{
  begins, turn, advance_at, turn_at, begin, happen, history,
}

module _ (hmac : String → String → String) (R : Repository ApiKey) (L : IsLawful R)
    (cfg : Config) where
  -- When its three turns follow each other, a create leaves the table that `create` leaves.
  pub history-create :
      (T : String) (dto : CreateApiKeyDto) (key_hex secret_hex : String) (t : R.Table)
      → history hmac R L cfg
          (begins (creates T dto key_hex secret_hex) ∷ turn 0 ∷ turn 0 ∷ turn 0 ∷ [])
          (record { table = t; flights = [] })
        ≡ record { table = (create hmac R cfg T dto key_hex secret_hex t).1; flights = [] }
  unfolding history happen begin turn_at advance_at create generate_key_and_secret
  history-create T dto key_hex secret_hex t =
      elim (Bool-cases (leb cfg.max_active (R.count (active_of T) t))) [
        | inl full ↦ rw full refl
        | inr room ↦ rw room (elim (Option-cases (R.find_one (with_key key) t)) [
          | inr (other, taken) ↦ rw (taken, advance_at) refl
          | inl free ↦
              rw (free, advance_at)
                (elim (Result-cases (R.insert k t)) [
                  | inl (x, failed) ↦ rw failed refl
                  | inr ((e, t'), done) ↦ rw done refl
                ])
        ])
      ]
    where
      key : String
      key = (generate_key_and_secret hmac R cfg key_hex secret_hex).0

      k : ApiKey
      k = new_key T dto key (generate_key_and_secret hmac R cfg key_hex secret_hex).2
