-- ===== src/ApiKeys/Concurrent.antt =====
-- Requests to the API key service that run at the same time. `create` waits three times for the
-- database: for the count, for the search and for the insert; other requests run in between. The
-- other operations are taken to run at once.
use multi_tenant_saas_gatewa.Common.{
  ℕ, zero, suc, String, Option, none, some, List, [], ◌∷◌, ◌++◌, if◌then◌else◌, leb,
}
use multi_tenant_saas_gatewa.Common.Outcome.{Result, ok, throw}
use multi_tenant_saas_gatewa.Database.{Entity, Repository, IsLawful}
use multi_tenant_saas_gatewa.ApiKeys.{
  ApiKey, Config, CreateApiKeyDto, active_of, with_key, new_key, generate_key_and_secret,
}
use multi_tenant_saas_gatewa.ApiKeys.Steps.{
  Call, creates, finds_all, finds_one, updates, revokes, deletes, rotates, validates, perform,
}

-- What a `create` waits for.
pub data Stage : Type 0 where
  counting searching saving : Stage

-- A `create` that has begun, by its arguments and the texts that it draws.
pub record Flight : Type 0 where
  pub tenant_id : String
  pub dto : CreateApiKeyDto
  pub key_hex : String
  pub secret_hex : String
  pub stage : Stage

pub data Event : Type 0 where
  begins : Call → Event
  turn : ℕ → Event

abbrev pub kept : Option Flight → List Flight → List Flight
kept none fs = fs
kept (some f) fs = f ∷ fs

module _ (hmac : String → String → String) (R : Repository ApiKey) (L : IsLawful R)
    (cfg : Config) where
  pub record Service : Type 0 where
    pub table : R.Table
    pub flights : List Flight

  abbrev pub key_of : Flight → ApiKey
  key_of f =
      let generated = generate_key_and_secret hmac R cfg f.key_hex f.secret_hex in
      new_key f.tenant_id f.dto generated.0 generated.2

  abbrev pub insert_result : R.Table → Result (Entity ApiKey × R.Table) → R.Table
  insert_result t (ok saved) = saved.1
  insert_result t (throw e) = t

  -- One statement of `create`, up to the next wait; a `create` that has ended is `none`.
  unfoldable pub advance_at : Stage → Flight → R.Table → Option Flight × R.Table
  unfolding generate_key_and_secret
  advance_at counting f t =
      if leb cfg.max_active (R.count (active_of f.tenant_id) t)
      then (none, t)
      else (some (record f { stage = searching }), t)
  advance_at searching f t = elim (R.find_one (with_key (key_of f).key) t) [
    | some k ↦ (none, t)
    | none ↦ (some (record f { stage = saving }), t)
  ]
  advance_at saving f t = (none, insert_result t (R.insert (key_of f) t))

  -- The `n`-th of the requests in flight goes on.
  unfoldable pub turn_at : ℕ → List Flight → R.Table → List Flight × R.Table
  unfolding advance_at
  turn_at n [] t = ([], t)
  turn_at zero (f ∷ fs) t = let (next, t') = advance_at f.stage f t in (kept next fs, t')
  turn_at (suc n) (f ∷ fs) t = let (fs', t') = turn_at n fs t in (f ∷ fs', t')

  abbrev pub at_once : Call → Service → Service
  at_once c s = record s { table = perform hmac R L cfg c s.table }

  unfoldable pub begin : Call → Service → Service
  begin (creates tenant_id dto key_hex secret_hex) s = record s {
    flights =
        s.flights
        ++ (record {
          tenant_id = tenant_id;
          dto = dto;
          key_hex = key_hex;
          secret_hex = secret_hex;
          stage = counting;
        }
            ∷ []);
  }
  begin (finds_all T) s = at_once (finds_all T) s
  begin (finds_one T i) s = at_once (finds_one T i) s
  begin (updates T i dto) s = at_once (updates T i dto) s
  begin (revokes T i) s = at_once (revokes T i) s
  begin (deletes T i) s = at_once (deletes T i) s
  begin (rotates T i key_hex secret_hex) s = at_once (rotates T i key_hex secret_hex) s
  begin (validates key secret expiry_now asked now) s =
      at_once (validates key secret expiry_now asked now) s

  unfoldable pub happen : Event → Service → Service
  unfolding begin turn_at
  happen (begins c) s = begin c s
  happen (turn n) s =
      let (fs, t) = turn_at n s.flights s.table in record { table = t; flights = fs }

  unfoldable pub history : List Event → Service → Service
  unfolding happen
  history [] s = s
  history (e ∷ es) s = history es (happen e s)
