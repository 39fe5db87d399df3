-- ===== src/Health.antt =====
-- The status of the system: apps/gateway-backend/src/modules/health/system-status.service.ts. The
-- answers of the database and of VirusTotal are arguments.
mod Cached
mod Examples
use guard_me.Prelude.{
  ℕ, ◌+◌, Bool, true, false, Option, none, some, String, ltb, nat_beq, str_eq, if◌then◌else◌,
}

pub data HealthState : Type 0 where
  fine degraded : HealthState

pub record SystemStatusPayload : Type 0 where
  pub db : HealthState
  pub virus_total : HealthState
  pub timestamp : ℕ

pub record CachedStatus : Type 0 where
  pub payload : SystemStatusPayload
  pub expires_at : ℕ

-- `SELECT 1` was answered.
unfoldable pub check_database : Bool → HealthState
check_database answered = if answered then fine else degraded

-- The status of the response, if there was one; without a key nothing is asked.
unfoldable pub check_virus_total : (api_key : String) → (response : Option ℕ) → HealthState
check_virus_total api_key none = degraded
check_virus_total api_key (some status) =
    if str_eq api_key "" then degraded else if nat_beq status 200 then fine else degraded

-- The status, whether VirusTotal was asked for it, and the cache. `finished` is the time behind the
-- two checks.
unfoldable pub get_status :
    (api_key : String)
    → (now finished : ℕ) → (db_answered : Bool) → (response : Option ℕ) → Option CachedStatus
    → (SystemStatusPayload × Bool) × Option CachedStatus
unfolding check_database check_virus_total
get_status api_key now finished db_answered response cached =
    let payload : SystemStatusPayload = record {
      db = check_database db_answered;
      virus_total = check_virus_total api_key response;
      timestamp = finished;
    } in
    let fresh : (SystemStatusPayload × Bool) × Option CachedStatus = (
      (payload, if str_eq api_key "" then false else true),
      some (record { payload = payload; expires_at = finished + 30000 }),
    ) in
    elim cached [
      | none ↦ fresh
      | some c ↦ if ltb now c.expires_at then ((c.payload, false), some c) else fresh
    ]
