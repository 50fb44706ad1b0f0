-- ===== src/Temperature.antt =====
-- src/client.rs and src/client_internal.rs: the temperature probes of the zones, how errors block one,
-- and how it is tried again. A counter of type u32 is taken modulo 2 ^ 32.
pub mod Reachable
pub mod Probes
pub mod Agreement
pub mod Calls
pub mod Retry
mod Runs
use satel_integra.Common.{
  ℕ, zero, suc, ◌+◌, ◌-◌, ◌%◌, ◌^◌, ◌≤◌, Bool, true, false, ◌&&◌, ◌||◌, Option, none, some, List,
  [], ◌∷◌, ◌==◌, ltb, leb, if◌then◌else◌, get_elem?,
}
use satel_integra.Config.{Config, TemperatureProbe, min_unblock_after_cycles}
use satel_integra.Error.{SatelError}
use satel_integra.Event.{SatelEvent}
use satel_integra.Parsers.Temperature.{ℤ}
use satel_integra.State.{
  Zone, SatelState, TemperatureSensorStatus, no_read, sensor_missing, communication_error,
  block_sensor_missing, block_communication_error, retry_read,
}

pub record TempLimits : Type 0 where
  pub max_timeout_errors : ℕ
  pub max_sensor_errors : ℕ
  pub unblock_enabled : Bool
  pub unblock_after_cycles : ℕ

limits_of : Config → List TemperatureProbe → ℕ → TempLimits
limits_of config [] zone_id = record {
  max_timeout_errors = config.temp_max_timeout_errors;
  max_sensor_errors = config.temp_max_sensor_errors;
  unblock_enabled = false;
  unblock_after_cycles = min_unblock_after_cycles;
}
limits_of config (probe ∷ probes) zone_id =
    let rest = limits_of config probes zone_id in
    if probe.zone_id == zone_id
    then record {
      max_timeout_errors = probe.max_timeout_errors;
      max_sensor_errors = probe.max_sensor_errors;
      unblock_enabled = probe.unblock_enabled;
      unblock_after_cycles = probe.unblock_after_cycles;
    }
    else rest

unfoldable pub temp_limits : Config → ℕ → TempLimits
unfolding limits_of
temp_limits config zone_id = limits_of config config.temperature_probes zone_id

-- What an error of a reading does to the zone, and the status that is reported.
unfoldable pub record_error : TempLimits → ℕ → SatelError → Zone → Zone × TemperatureSensorStatus
record_error limits now error zone =
    let timeout : Zone × TemperatureSensorStatus =
      (let current = (zone.temperature_timeout_errors_current + 1) % 2 ^ 32 in
        let blocks = leb limits.max_timeout_errors current in
        (
          record zone {
            temperature_timeout_errors_total = (zone.temperature_timeout_errors_total + 1) % 2 ^ 32;
            temperature_timeout_errors_current = current;
            temperature_status = if blocks then block_sensor_missing else sensor_missing;
            temperature_blocked_cycles = if blocks then 0 else zone.temperature_blocked_cycles;
            temperature_read_at = now;
          },
          sensor_missing,
        )) in
    elim error [
      | SatelError.timeout ↦ timeout
      | SatelError.temperature_not_supported_or_time_out ↦ timeout
      | SatelError.temperature_sensor_error ↦
          let current = (zone.temperature_sensor_errors_current + 1) % 2 ^ 32 in
          let blocks = leb limits.max_sensor_errors current in
          (
            record zone {
              temperature_sensor_errors_total = (zone.temperature_sensor_errors_total + 1) % 2 ^ 32;
              temperature_sensor_errors_current = current;
              temperature_status =
                  if blocks then block_communication_error else communication_error;
              temperature_blocked_cycles = if blocks then 0 else zone.temperature_blocked_cycles;
              temperature_read_at = now;
            },
            communication_error,
          )
      | _ ↦ (record zone { temperature_read_at = now }, zone.temperature_status)
    ]

-- What a reading does to the zone.
unfoldable pub record_success : ℕ → ℤ → Zone → Zone
record_success now temp zone = record zone {
  temperature_value = temp;
  temperature_read_at = now;
  temperature_status = TemperatureSensorStatus.ok;
  temperature_blocked_cycles = 0;
  temperature_timeout_errors_current =
      if ltb 0 zone.temperature_timeout_errors_current
      then zone.temperature_timeout_errors_current - 1
      else zone.temperature_timeout_errors_current;
  temperature_sensor_errors_current =
      if ltb 0 zone.temperature_sensor_errors_current
      then zone.temperature_sensor_errors_current - 1
      else zone.temperature_sensor_errors_current;
}

-- The body of `reset_temperature_sensor`.
unfoldable pub reset_sensor : Zone → Zone
reset_sensor zone = record zone {
  temperature_status = no_read;
  temperature_timeout_errors_current = 0;
  temperature_sensor_errors_current = 0;
  temperature_blocked_cycles = 0;
}

is_status : TemperatureSensorStatus → TemperatureSensorStatus → Bool
is_status block_sensor_missing block_sensor_missing = true
is_status block_communication_error block_communication_error = true
is_status _ _ = false

unfoldable pub is_blocked : TempLimits → Zone → Bool
unfolding is_status
is_blocked limits zone =
    is_status zone.temperature_status block_sensor_missing
    || is_status zone.temperature_status block_communication_error
    || leb limits.max_timeout_errors zone.temperature_timeout_errors_current
    || leb limits.max_sensor_errors zone.temperature_sensor_errors_current

-- The branch for a blocked zone: the zone afterwards, and the status that is told, if one is. The
-- caller gets the error `temp_too_many_errors` either way.
unfoldable pub refuse : TempLimits → Zone → Zone × Option TemperatureSensorStatus
unfolding is_status
refuse limits zone =
    let new_cycles = (zone.temperature_blocked_cycles + 1) % 2 ^ 32 in
    let timeouts_full = leb limits.max_timeout_errors zone.temperature_timeout_errors_current in
    let sensors_full = leb limits.max_sensor_errors zone.temperature_sensor_errors_current in
    let status =
      if is_status zone.temperature_status block_sensor_missing || timeouts_full
      then block_sensor_missing
      else block_communication_error in
    if limits.unblock_enabled && leb limits.unblock_after_cycles new_cycles
    then (
      record zone {
        temperature_timeout_errors_current =
            if timeouts_full
            then zone.temperature_timeout_errors_current - 1
            else zone.temperature_timeout_errors_current;
        temperature_sensor_errors_current =
            if sensors_full
            then zone.temperature_sensor_errors_current - 1
            else zone.temperature_sensor_errors_current;
        temperature_status = retry_read;
        temperature_blocked_cycles = 0;
      },
      none,
    )
    else (
      record zone { temperature_status = status; temperature_blocked_cycles = new_cycles },
      some status,
    )
