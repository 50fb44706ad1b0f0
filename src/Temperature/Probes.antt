-- ===== src/Temperature/Probes.antt =====
-- src/client.rs and src/client_internal.rs: what a temperature probe is meant to do, told apart from the
-- cache that holds it: counters that an answer raises or lowers, limits at which it blocks, and a wait
-- after which it is tried again. The times of the readings are left out.
use satel_integra.Common.{
  ℕ, ◌+◌, ◌-◌, ◌%◌, ◌^◌, Bool, true, false, ◌&&◌, ◌||◌, List, leb, if◌then◌else◌,
}
use satel_integra.Error.{SatelError, Result, ok, err, ◌>>=◌}
use satel_integra.Parsers.Temperature.{ℤ, pos, process_zone_temperature}
use satel_integra.State.{
  Zone, TemperatureSensorStatus, no_read, sensor_missing, communication_error, block_sensor_missing,
  block_communication_error, retry_read,
}
use satel_integra.Temperature.{TempLimits}

pub record Probe : Type 0 where
  pub value : ℤ
  pub status : TemperatureSensorStatus
  pub timeouts : ℕ
  pub timeouts_total : ℕ
  pub sensors : ℕ
  pub sensors_total : ℕ
  pub cycles : ℕ

-- What the panel lets the client know of a sensor.
pub data Heard : Type 0 where
  no_answer no_sensor other_error : Heard
  reading : ℤ → Heard

unfoldable pub heard_error : SatelError → Heard
heard_error SatelError.timeout = no_answer
heard_error SatelError.temperature_not_supported_or_time_out = no_answer
heard_error SatelError.temperature_sensor_error = no_sensor
heard_error _ = other_error

unfoldable pub heard_parsed : Result (ℕ × ℤ) → Heard
unfolding heard_error
heard_parsed (err e) = heard_error e
heard_parsed (ok (id, temp)) = reading temp

unfoldable pub heard : Result (List ℕ) → Heard
unfolding heard_error heard_parsed
heard (err e) = heard_error e
heard (ok response) = heard_parsed (process_zone_temperature response)

unfoldable pub says_blocked : TemperatureSensorStatus → Bool
says_blocked block_sensor_missing = true
says_blocked block_communication_error = true
says_blocked _ = false

unfoldable pub blocks : TempLimits → Probe → Bool
unfolding says_blocked
blocks limits p =
    says_blocked p.status
    || leb limits.max_timeout_errors p.timeouts
    || leb limits.max_sensor_errors p.sensors

-- A counter of type u32.
abbrev pub counted : ℕ → ℕ
counted n = (n + 1) % 2 ^ 32

-- A probe that is read.
unfoldable pub after_heard : TempLimits → Probe → Heard → Probe
after_heard limits p no_answer =
    let full = leb limits.max_timeout_errors (counted p.timeouts) in
    record p {
      timeouts = counted p.timeouts;
      timeouts_total = counted p.timeouts_total;
      status = if full then block_sensor_missing else sensor_missing;
      cycles = if full then 0 else p.cycles;
    }
after_heard limits p no_sensor =
    let full = leb limits.max_sensor_errors (counted p.sensors) in
    record p {
      sensors = counted p.sensors;
      sensors_total = counted p.sensors_total;
      status = if full then block_communication_error else communication_error;
      cycles = if full then 0 else p.cycles;
    }
after_heard limits p other_error = p
after_heard limits p (reading temp) = record p {
  value = temp;
  status = TemperatureSensorStatus.ok;
  timeouts = p.timeouts - 1;
  sensors = p.sensors - 1;
  cycles = 0;
}

-- The status of a refused probe: which of its two blocks is told.
unfoldable pub told_status : Bool → TemperatureSensorStatus → TemperatureSensorStatus
told_status true status = block_sensor_missing
told_status false block_sensor_missing = block_sensor_missing
told_status false _ = block_communication_error

-- A probe that is refused.
unfoldable pub after_refusal : TempLimits → Probe → Probe
unfolding told_status
after_refusal limits p =
    let missing = leb limits.max_timeout_errors p.timeouts in
    let faulty = leb limits.max_sensor_errors p.sensors in
    if limits.unblock_enabled && leb limits.unblock_after_cycles (counted p.cycles)
    then record p {
      status = retry_read;
      timeouts = if missing then p.timeouts - 1 else p.timeouts;
      sensors = if faulty then p.sensors - 1 else p.sensors;
      cycles = 0;
    }
    else record p { status = told_status missing p.status; cycles = counted p.cycles }

unfoldable pub next : TempLimits → Probe → Heard → Probe
unfolding blocks after_refusal after_heard
next limits p h = if blocks limits p then after_refusal limits p else after_heard limits p h

-- The probe of a cached zone, and the zone without it.
unfoldable pub probe_of : Zone → Probe
probe_of z = record {
  value = z.temperature_value;
  status = z.temperature_status;
  timeouts = z.temperature_timeout_errors_current;
  timeouts_total = z.temperature_timeout_errors_total;
  sensors = z.temperature_sensor_errors_current;
  sensors_total = z.temperature_sensor_errors_total;
  cycles = z.temperature_blocked_cycles;
}

unfoldable pub without_probe : Zone → Zone
without_probe z = record z {
  temperature_value = pos 0;
  temperature_status = no_read;
  temperature_timeout_errors_current = 0;
  temperature_timeout_errors_total = 0;
  temperature_sensor_errors_current = 0;
  temperature_sensor_errors_total = 0;
  temperature_blocked_cycles = 0;
  temperature_read_at = 0;
}

-- What a call that reads returns: the error, where a time-out is told as a missing sensor, or the zone.
unfoldable pub reply : Result (List ℕ) → Zone → Result Zone
reply (err SatelError.timeout) z = err SatelError.temperature_not_supported_or_time_out
reply (err e) z = err e
reply (ok response) z = do parsed ← process_zone_temperature response; ok z
