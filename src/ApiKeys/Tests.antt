-- ===== src/ApiKeys/Tests.antt =====
-- The API key service on a table in memory: tests, and the theorems at inputs that meet their
-- hypotheses.
use multi_tenant_saas_gatewa.Common.{
  ◌≤◌, ◌<◌, List, String, ◌≡◌, refl, none, some, [], ◌∷◌, arith, string_dec, concat,
}
use multi_tenant_saas_gatewa.Common.Outcome.{ok}
use multi_tenant_saas_gatewa.Database.{Entity, Repository, IsLawful}
use multi_tenant_saas_gatewa.Database.Memory.{memory, memory-IsLawful}
use multi_tenant_saas_gatewa.ApiKeys.{
  ApiKey, ApiKeyStatus, active, revoked, Config, CreateApiKeyDto, validate_api_key, rotate,
  active_of,
}
use multi_tenant_saas_gatewa.ApiKeys.Steps.{creates, revokes, validates, rotates, run}
use multi_tenant_saas_gatewa.ApiKeys.Concurrent.{
  Event, begins, turn, advance_at, turn_at, begin, happen, history,
}
use multi_tenant_saas_gatewa.ApiKeys.Race.{in_flight, AtMost, history_limit}
use multi_tenant_saas_gatewa.ApiKeys.Tenancy.{StaysDead, run-StaysDead}
use multi_tenant_saas_gatewa.ApiKeys.Validation.{
  Genuine, Admitted, validate_sound, validate_complete,
}
use multi_tenant_saas_gatewa.ApiKeys.Rotation.{rotate-validate}
use multi_tenant_saas_gatewa.ApiKeys.Limit.{WithinLimit, UniqueKeys, run_limit}

abbrev join : String → String → String
join k s = concat (k ∷ "/" ∷ s ∷ [])

abbrev R : Repository ApiKey
R = memory ApiKey

abbrev L : IsLawful R
L = memory-IsLawful ApiKey

abbrev cfg : Config
cfg = record { max_active = 1; hash_secret = "salt"; last_used_update_interval = 10 }

abbrev key_row : ApiKeyStatus → Entity ApiKey
key_row status = record {
  base = record { id = "k1"; created_at = 0; updated_at = 0; deleted_at = none };
  own = record {
    tenant_id = "acme";
    name = "ci";
    key = "sk_1";
    secret = "salt/s3";
    status = status;
    expires_at = some 100;
    last_used_at = none;
    scopes = "read" ∷ [];
  };
}

abbrev table : ApiKeyStatus → R.Table
unfolding memory
table status = key_row status ∷ []

unfoldable no_keys : R.Table
unfolding memory
no_keys = []

abbrev dto : CreateApiKeyDto
dto = record { name = "second"; scopes = none; expires_at = none }

table-WithinLimit : WithinLimit join R L cfg (table active)
unfolding memory
table-WithinLimit T = ground arith

table-UniqueKeys : (s : ApiKeyStatus) → UniqueKeys join R L cfg (table s)
unfolding memory memory-IsLawful
table-UniqueKeys s i j e f p q same = ground arith

run_limit_example :
    R.count (active_of "acme") (
      run join R L cfg
        (creates "acme" dto "2" "x" ∷ revokes "acme" "k1" ∷ creates "acme" dto "2" "x" ∷ [])
        (table active))
    ≤ cfg.max_active
run_limit_example =
    run_limit join R L cfg
      (creates "acme" dto "2" "x" ∷ revokes "acme" "k1" ∷ creates "acme" dto "2" "x" ∷ [])
      (table active) "acme" table-WithinLimit

-- Two creates of a tenant that has no key pass the test on the count before one of them inserts.
abbrev racing : List Event
racing =
    begins (creates "acme" dto "1" "x")
    ∷ begins (creates "acme" dto "2" "y")
    ∷ turn 0
    ∷ turn 1
    ∷ turn 0
    ∷ turn 0
    ∷ turn 0
    ∷ turn 0
    ∷ []

racing-AtMost : AtMost join R L cfg 2 "acme" racing (record { table = no_keys; flights = [] })
unfolding AtMost in_flight happen begin turn_at advance_at memory no_keys string_dec concat
racing-AtMost = (
  omega arith,
  (
    omega arith,
    (
      omega arith,
      (omega arith, (omega arith, (omega arith, (omega arith, (omega arith, omega arith))))),
    ),
  ),
)

history_limit_example :
    R.count
      (active_of "acme")
      (history join R L cfg racing (record { table = no_keys; flights = [] })).table
    < 3
unfolding memory no_keys
history_limit_example =
    history_limit join R L cfg 2 "acme" racing no_keys (omega arith) (omega arith) racing-AtMost

-- The limit of one key is exceeded.
exceeds_limit :
    R.count
      (active_of "acme")
      (history join R L cfg racing (record { table = no_keys; flights = [] })).table
    ≡ 2
unfolding history happen begin turn_at advance_at memory no_keys string_dec concat
exceeds_limit = refl

abbrev used : Entity ApiKey
used = record (key_row active) { own = record ((key_row active).own) { last_used_at = some 52 } }

abbrev used_table : R.Table
unfolding memory
used_table = used ∷ []

accepted :
    validate_api_key join R cfg "sk_1" "s3" 50 51 52 (table active) ≡ (ok (some used), used_table)
unfolding validate_api_key memory string_dec concat
accepted = refl

refused : validate_api_key join R cfg "sk_1" "s4" 50 51 52 (table active) ≡ (ok none, table active)
unfolding validate_api_key memory string_dec concat
refused = refl

run-StaysDead_example :
    StaysDead join R L cfg
      (validates "sk_1" "s3" 1 2 3 ∷ rotates "acme" "k1" "4" "s5" ∷ [])
      (table revoked)
      "k1"
unfolding memory memory-IsLawful string_dec
run-StaysDead_example =
    run-StaysDead join R L cfg _ (table revoked) "k1" (key_row revoked) refl refl

abbrev genuine : Genuine join R L cfg (table active) "sk_1" "s3" 50 (key_row active)
unfolding memory memory-IsLawful string_dec concat
genuine = record { stored = refl; same_key = refl; alive = refl; current = refl; same_hash = refl }

validate_sound_example :
    (e : Entity ApiKey) × Genuine join R L cfg (table active) "sk_1" "s3" 50 e
    × (used.id ≡ e.id)
    × (used.own.tenant_id ≡ e.own.tenant_id)
    × (used.own.scopes ≡ e.own.scopes)
validate_sound_example =
    validate_sound join R L cfg "sk_1" "s3" 50 51 52 (table active) used_table used accepted

validate_complete_example :
    Admitted join R L cfg
      (key_row active)
      52
      (validate_api_key join R cfg "sk_1" "s3" 50 51 52 (table active)).0
      (table active)
validate_complete_example =
    validate_complete join R L cfg "sk_1" "s3" 50 51 52 (table active) (key_row active)
      (table-UniqueKeys active) genuine

abbrev rotated : Entity ApiKey
rotated = record (key_row active) { own = record ((key_row active).own) { secret = "salt/s9" } }

abbrev rotated_table : R.Table
unfolding memory
rotated_table = rotated ∷ []

rotate-validate_example : ◌≡◌ {A = String} (join "salt" "s9") (join "salt" "s9")
unfolding rotate validate_api_key memory memory-IsLawful string_dec concat
rotate-validate_example =
    rotate-validate join R L cfg "x" "s9" "s9" 50 51 52 (table active) rotated_table _
      (key_row active) _ _ (table-UniqueKeys active) refl refl refl
