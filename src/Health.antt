-- ===== src/Health.antt =====
-- src/modules/health/health.service.ts: the state of the process and of the database. What the query
-- `SELECT 1` does is an argument, as are the readings of the clock and of `process.uptime`.
use multi_tenant_saas_gatewa.Common.{
  ℕ, String, Bool, true, false, not, Option, none, some, get_or, ◌-◌, ◌≡◌, refl, if◌then◌else◌,
}

-- How the query ends. What is thrown has a message if it is an `Error`.
pub data Queried : Type 0 where
  answered : Queried
  rejected : Option String → Queried

pub data DatabaseStatus : Type 0 where
  up : ℕ → DatabaseStatus
  down : String → DatabaseStatus

pub record GatewayStatus : Type 0 where
  pub status : String
  pub uptime : Option ℕ
  pub timestamp : ℕ

pub record Info : Type 0 where
  pub api_gateway : GatewayStatus
  pub database : DatabaseStatus

pub record HealthResponse : Type 0 where
  pub status : String
  pub info : Info
  pub error : Option DatabaseStatus
  pub details : Info

-- The database is asked between two readings of the clock.
unfoldable pub check_database : ℕ → ℕ → Queried → DatabaseStatus
check_database start now answered = up (now - start)
check_database start now (rejected message) = down (get_or message "Unknown error")

abbrev pub is_down : DatabaseStatus → Bool
is_down (up response_time) = false
is_down (down message) = true

unfoldable pub get_health_status : DatabaseStatus → ℕ → ℕ → HealthResponse
get_health_status db_status uptime now =
    let has_error = is_down db_status in
    let info : Info = record {
      api_gateway = record { status = "up"; uptime = some uptime; timestamp = now };
      database = db_status;
    } in
    record {
      status = if has_error then "error" else "ok";
      info = info;
      error = if has_error then some db_status else none;
      details = info;
    }

unfoldable pub get_ready_status : DatabaseStatus → ℕ → HealthResponse
get_ready_status db_status now =
    let is_ready = not (is_down db_status) in
    let info : Info = record {
      api_gateway = record {
        status = if is_ready then "ready" else "not-ready";
        uptime = none;
        timestamp = now;
      };
      database = db_status;
    } in
    record {
      status = if is_ready then "ok" else "error";
      info = info;
      error = if is_ready then none else some db_status;
      details = info;
    }

-- The two probes give the same verdict: the database is the only thing that they test.
pub get_health_status-get_ready_status :
    (d : DatabaseStatus) (uptime now later : ℕ)
    → ((get_health_status d uptime now).status ≡ (get_ready_status d later).status)
      × ((get_health_status d uptime now).error ≡ (get_ready_status d later).error)
unfolding get_health_status get_ready_status
get_health_status-get_ready_status (up response_time) uptime now later = (refl, refl)
get_health_status-get_ready_status (down message) uptime now later = (refl, refl)
