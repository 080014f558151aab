-- ===== src/ApiKeys/Race.antt =====
-- The limit on active keys when requests run at the same time.
use multi_tenant_saas_gatewa.Common.{
  ℕ, zero, suc, ◌+◌, ◌<◌, ◌≤◌, String, ◌≡◌, refl, subst, ◌⊎◌, inl, inr, Bool, true, false, List, [],
  ◌∷◌, ◌++◌, ◌==◌, ◌&&◌, leb, arith, Bool-cases, Option-cases,
}
use multi_tenant_saas_gatewa.Database.{Repository, IsLawful, bit}
use multi_tenant_saas_gatewa.Database.Laws.{insert_cases, save_cases, remove_cases}
use multi_tenant_saas_gatewa.ApiKeys.{
  ApiKey, Config, active_of, with_key, generate_key_and_secret, find_all, find_one, update, revoke,
  delete, rotate, validate_api_key,
}
use multi_tenant_saas_gatewa.ApiKeys.Steps.{
  Call, creates, finds_all, finds_one, updates, revokes, deletes, rotates, validates, perform,
  perform-Step, Step, unchanged, created, saved, removed,
}
use multi_tenant_saas_gatewa.ApiKeys.Limit.{bit-Transition}
use multi_tenant_saas_gatewa.ApiKeys.Concurrent.{
  Stage, counting, searching, saving, Flight, Event, begins, turn, kept, Service, key_of,
  advance_at, turn_at, begin, happen, history,
}

-- The requests in flight of a tenant, and those of them that have passed the test on the count.
unfoldable pub in_flight : String → List Flight → ℕ
in_flight T [] = 0
in_flight T (f ∷ fs) = bit (f.tenant_id == T) + in_flight T fs

abbrev pub has_passed : Stage → Bool
has_passed counting = false
has_passed searching = true
has_passed saving = true

unfoldable pub passed : String → List Flight → ℕ
passed T [] = 0
passed T (f ∷ fs) = bit (has_passed f.stage && f.tenant_id == T) + passed T fs

in_flight_append :
    (T : String) (fs : List Flight) (f : Flight)
    → in_flight T (fs ++ (f ∷ [])) ≡ in_flight T fs + bit (f.tenant_id == T)
unfolding in_flight
in_flight_append T [] f = ground arith
in_flight_append T (g ∷ fs) f = ground (arith, in_flight_append T fs f)

passed_append :
    (T : String) (fs : List Flight) (f : Flight)
    → has_passed f.stage ≡ false
    → passed T (fs ++ (f ∷ [])) ≡ passed T fs
unfolding passed
passed_append T [] f h = ground (arith, h)
passed_append T (g ∷ fs) f h = ground (arith, passed_append T fs f h)

passed_le : (T : String) (fs : List Flight) → passed T fs ≤ in_flight T fs
unfolding passed in_flight
passed_le T [] = omega arith
passed_le T (f ∷ fs) = ground (arith, passed_le T fs)

module _ (hmac : String → String → String) (R : Repository ApiKey) (L : IsLawful R)
    (cfg : Config) where
  -- A turn adds nothing to the active keys and the requests that are past the test, taken together,
  -- or there was room for one more key.
  abbrev Turned : String → List Flight → R.Table → List Flight → R.Table → Type 0
  Turned T fs t fs' t' =
      (R.count (active_of T) t' + passed T fs' ≤ R.count (active_of T) t + passed T fs)
      ⊎ ((R.count (active_of T) t' < cfg.max_active) × (passed T fs' ≤ in_flight T fs))

  advance-Turned :
      (T : String) (st : Stage) (f : Flight) (fs : List Flight) (t : R.Table)
      → f.stage ≡ st
      → let r = advance_at hmac R L cfg st f t in Turned T (f ∷ fs) t (kept r.0 fs) r.1
  unfolding advance_at passed in_flight
  advance-Turned T counting f fs t h =
      elim (Bool-cases (leb cfg.max_active (R.count (active_of f.tenant_id) t))) [
        | inl full ↦ rw full (inl (ground (arith, h)))
        | inr room ↦ rw room (elim (Bool-cases (f.tenant_id == T)) [
          | inl mine ↦
              let same : f.tenant_id ≡ T = ground (arith, mine) in
              let less : R.count (active_of T) t < cfg.max_active =
                subst (λ T. R.count (active_of T) t < cfg.max_active) same (ground (arith, room)) in
              inr (less, ground (arith, passed_le T fs))
          | inr other ↦ inl (ground (arith, other, h))
        ])
      ]
  advance-Turned T searching f fs t h =
      elim (Option-cases (R.find_one (with_key (key_of hmac R L cfg f).key) t)) [
        | inl free ↦ rw (free, advance_at) (inl (ground (arith, h)))
        | inr (k, taken) ↦ rw (taken, advance_at) (inl (ground (arith, h)))
      ]
  advance-Turned T saving f fs t h =
      elim (insert_cases L (active_of T) T (key_of hmac R L cfg f) t) [
        | inl (x, failed) ↦ rw failed (inl (ground (arith, h)))
        | inr (e, t', done, fresh, own, row, counted) ↦
            rw done (inl (ground (arith, h, own, counted)))
      ]

  turn_at-Turned :
      (T : String) (n : ℕ) (fs : List Flight) (t : R.Table)
      → let r = turn_at hmac R L cfg n fs t in Turned T fs t r.0 r.1
  unfolding turn_at passed in_flight
  turn_at-Turned T n [] t = inl (omega arith)
  turn_at-Turned T zero (f ∷ fs) t = advance-Turned T f.stage f fs t refl
  turn_at-Turned T (suc n) (f ∷ fs) t = elim (turn_at-Turned T n fs t) [
    | inl less ↦ inl (ground (arith, less))
    | inr (room, few) ↦ inr (room, ground (arith, few))
  ]

  -- Without room for a new key, a step makes no key active.
  Step-count :
      {T : String} {t t' : R.Table}
      → cfg.max_active ≡ 0
      → Step hmac R L cfg T t t'
      → (tenant_id : String) → R.count (active_of tenant_id) t' ≤ R.count (active_of tenant_id) t
  Step-count none_left (unchanged e) T = rw e (omega arith)
  Step-count none_left (created k e mine alive room free done) T =
      absurd (omega (arith, room, none_left))
  Step-count {t} none_left (saved old new e row mine a done) T = ground (
    arith,
    a.same_tenant,
    a.same_id,
    bit-Transition a.transition (old.own.tenant_id == T),
    save_cases L (active_of T) T new old t,
  )
  Step-count {t} none_left (removed old row mine done) T =
      ground (arith, remove_cases L (active_of T) T old old t)

abbrev is_create : Call → Bool
is_create (creates T dto key_hex secret_hex) = true
is_create (finds_all T) = false
is_create (finds_one T i) = false
is_create (updates T i dto) = false
is_create (revokes T i) = false
is_create (deletes T i) = false
is_create (rotates T i key_hex secret_hex) = false
is_create (validates key secret expiry_now asked now) = false

module _ (hmac : String → String → String) (R : Repository ApiKey) (L : IsLawful R)
    (cfg : Config) where
  -- The same configuration without room for a key.
  abbrev full_config : Config
  full_config = record cfg { max_active = 0 }

  full-count :
      (c : Call) (t : R.Table) (T : String)
      → R.count (active_of T) (perform hmac R L full_config c t) ≤ R.count (active_of T) t
  full-count c t T = Step-count hmac R L full_config refl (perform-Step hmac R L full_config c t) T

  -- Only `create` reads the limit, so that no other call makes a key active.
  perform-count :
      (c : Call) (t : R.Table) (T : String)
      → is_create c ≡ false
      → R.count (active_of T) (perform hmac R L cfg c t) ≤ R.count (active_of T) t
  unfolding perform find_all find_one update revoke delete rotate generate_key_and_secret
      validate_api_key
  perform-count (creates U dto key_hex secret_hex) t T h = absurd (ground (arith, h))
  perform-count (finds_all U) t T h = full-count (finds_all U) t T
  perform-count (finds_one U i) t T h = full-count (finds_one U i) t T
  perform-count (updates U i dto) t T h = full-count (updates U i dto) t T
  perform-count (revokes U i) t T h = full-count (revokes U i) t T
  perform-count (deletes U i) t T h = full-count (deletes U i) t T
  perform-count (rotates U i key_hex secret_hex) t T h =
      full-count (rotates U i key_hex secret_hex) t T
  perform-count (validates key secret expiry_now asked now) t T h =
      full-count (validates key secret expiry_now asked now) t T

  -- Whenever an event happens, and at the end, at most `k` creates of the tenant are in flight.
  unfoldable pub AtMost : ℕ → String → List Event → Service hmac R L cfg → Type 0
  unfolding in_flight
  AtMost k T [] s = in_flight T s.flights ≤ k
  AtMost k T (e ∷ es) s = (in_flight T s.flights ≤ k) × AtMost k T es (happen hmac R L cfg e s)

  -- The active keys and the requests that are past the test, taken together.
  abbrev Bounded : ℕ → String → Service hmac R L cfg → Type 0
  Bounded k T s = R.count (active_of T) s.table + passed T s.flights < cfg.max_active + k

  happen-Bounded :
      (k : ℕ) (T : String) (e : Event) (s : Service hmac R L cfg)
      → in_flight T s.flights ≤ k
      → Bounded k T s
      → Bounded k T (happen hmac R L cfg e s)
  unfolding happen begin
  happen-Bounded k T (turn n) s few h = elim (turn_at-Turned hmac R L cfg T n s.flights s.table) [
    | inl less ↦ omega (arith, h, less)
    | inr (room, past) ↦ omega (arith, few, room, past)
  ]
  happen-Bounded k T (begins (creates U dto key_hex secret_hex)) s few h =
      rw
        (passed_append T s.flights
          (record {
            tenant_id = U;
            dto = dto;
            key_hex = key_hex;
            secret_hex = secret_hex;
            stage = counting;
          })
          refl)
        h
  happen-Bounded k T (begins (finds_all U)) s few h =
      omega (arith, h, perform-count (finds_all U) s.table T refl)
  happen-Bounded k T (begins (finds_one U i)) s few h =
      omega (arith, h, perform-count (finds_one U i) s.table T refl)
  happen-Bounded k T (begins (updates U i dto)) s few h =
      omega (arith, h, perform-count (updates U i dto) s.table T refl)
  happen-Bounded k T (begins (revokes U i)) s few h =
      omega (arith, h, perform-count (revokes U i) s.table T refl)
  happen-Bounded k T (begins (deletes U i)) s few h =
      omega (arith, h, perform-count (deletes U i) s.table T refl)
  happen-Bounded k T (begins (rotates U i key_hex secret_hex)) s few h =
      omega (arith, h, perform-count (rotates U i key_hex secret_hex) s.table T refl)
  happen-Bounded k T (begins (validates key secret expiry_now asked now)) s few h =
      omega (arith, h, perform-count (validates key secret expiry_now asked now) s.table T refl)

  history-Bounded :
      (k : ℕ) (T : String) (es : List Event) (s : Service hmac R L cfg)
      → AtMost k T es s
      → Bounded k T s
      → Bounded k T (history hmac R L cfg es s)
  unfolding AtMost history
  history-Bounded k T [] s few h = h
  history-Bounded k T (e ∷ es) s few h =
      history-Bounded k T es (happen hmac R L cfg e s) few.1 (happen-Bounded k T e s few.0 h)

  -- From a table within the limit, where creates overlap in any order of their statements and every
  -- other call runs alone from start to end between two of these: if at most `k` creates of a tenant are
  -- in flight at a time, with `k` at least 1, the tenant never has `k` or more active keys above the
  -- limit.
  pub history_limit :
      (k : ℕ) (T : String) (es : List Event) (t : R.Table)
      → 1 ≤ k
      → R.count (active_of T) t ≤ cfg.max_active
      → AtMost k T es (record { table = t; flights = [] })
      → R.count (active_of T) (history hmac R L cfg es (record { table = t; flights = [] })).table
        < cfg.max_active + k
  unfolding passed
  history_limit k T es t pos within few = omega (
    arith,
    history-Bounded k T es (record { table = t; flights = [] }) few (omega (arith, pos, within)),
  )
