-- ===== src/Temperature/Agreement.antt =====
-- What the code does to a cached zone is what a probe is meant to do.
use satel_integra.Common.{
  ℕ, ◌+◌, ◌-◌, ◌%◌, ◌^◌, Bool, true, false, ltb, leb, if◌then◌else◌, ◌&&◌, ◌||◌, ◌≡◌, refl, inl,
  inr, Bool-cases, arith,
}
use satel_integra.Error.{SatelError}
use satel_integra.Parsers.Temperature.{ℤ}
use satel_integra.State.{
  Zone, TemperatureSensorStatus, no_read, sensor_missing, communication_error, block_sensor_missing,
  block_communication_error, retry_read,
}
use satel_integra.Temperature.{
  TempLimits, is_blocked, is_status, refuse, record_error, record_success,
}
use satel_integra.Temperature.Probes.{
  reading, heard_error, blocks, says_blocked, after_heard, told_status, after_refusal, probe_of,
  without_probe,
}

-- The probe's part of what the code does.
pub record_error-after_heard :
    (limits : TempLimits) (now : ℕ) (error : SatelError) (z : Zone)
    → (probe_of (record_error limits now error z).0
        ≡ after_heard limits (probe_of z) (heard_error error))
      × (without_probe (record_error limits now error z).0 ≡ without_probe z)
unfolding probe_of without_probe record_error after_heard heard_error
record_error-after_heard limits now SatelError.timeout z = (refl, refl)
record_error-after_heard limits now SatelError.temperature_not_supported_or_time_out z =
    (refl, refl)
record_error-after_heard limits now SatelError.temperature_sensor_error z = (refl, refl)
record_error-after_heard limits now _ z = (refl, refl)

lowered : (n : ℕ) → (if ltb 0 n then n - 1 else n) ≡ n - 1
lowered n = ground arith

pub record_success-after_heard :
    (limits : TempLimits) (now : ℕ) (temp : ℤ) (z : Zone)
    → (probe_of (record_success now temp z) ≡ after_heard limits (probe_of z) (reading temp))
      × (without_probe (record_success now temp z) ≡ without_probe z)
unfolding probe_of without_probe record_success after_heard
record_success-after_heard limits now temp z = (
  rw (lowered z.temperature_timeout_errors_current, lowered z.temperature_sensor_errors_current)
      refl,
  refl,
)

blocked_status :
    (s : TemperatureSensorStatus) (missing faulty : Bool)
    → (says_blocked s || missing || faulty) ≡ (
        is_status s block_sensor_missing
        || is_status s block_communication_error
        || missing
        || faulty)
unfolding says_blocked is_status
blocked_status no_read missing faulty = refl
blocked_status TemperatureSensorStatus.ok missing faulty = refl
blocked_status sensor_missing missing faulty = refl
blocked_status communication_error missing faulty = refl
blocked_status block_sensor_missing missing faulty = refl
blocked_status block_communication_error missing faulty = refl
blocked_status retry_read missing faulty = refl

refused_status :
    (missing : Bool) (s : TemperatureSensorStatus)
    → (if is_status s block_sensor_missing || missing
        then block_sensor_missing
        else block_communication_error)
      ≡ told_status missing s
unfolding told_status is_status
refused_status true no_read = refl
refused_status true TemperatureSensorStatus.ok = refl
refused_status true sensor_missing = refl
refused_status true communication_error = refl
refused_status true block_sensor_missing = refl
refused_status true block_communication_error = refl
refused_status true retry_read = refl
refused_status false no_read = refl
refused_status false TemperatureSensorStatus.ok = refl
refused_status false sensor_missing = refl
refused_status false communication_error = refl
refused_status false block_sensor_missing = refl
refused_status false block_communication_error = refl
refused_status false retry_read = refl

pub is_blocked-blocks :
    (limits : TempLimits) (z : Zone) → blocks limits (probe_of z) ≡ is_blocked limits z
unfolding blocks says_blocked probe_of is_blocked is_status
is_blocked-blocks limits z =
    blocked_status z.temperature_status
      (leb limits.max_timeout_errors z.temperature_timeout_errors_current)
      (leb limits.max_sensor_errors z.temperature_sensor_errors_current)

pub refuse-after_refusal :
    (limits : TempLimits) (z : Zone)
    → (probe_of (refuse limits z).0 ≡ after_refusal limits (probe_of z))
      × (without_probe (refuse limits z).0 ≡ without_probe z)
unfolding probe_of without_probe refuse is_status after_refusal told_status
refuse-after_refusal limits z =
    elim (Bool-cases (
      limits.unblock_enabled
      && leb limits.unblock_after_cycles ((z.temperature_blocked_cycles + 1) % 2 ^ 32))) [
        | inl due ↦ (rw due refl, rw due refl)
        | inr early ↦ (
          rw
              (
                early,
                refused_status (leb limits.max_timeout_errors z.temperature_timeout_errors_current)
                    z.temperature_status,
              )
              refl,
          rw early refl,
        )
      ]
