-- ===== src/Temperature/Reachable.antt =====
-- The states that the polling of a temperature probe can bring a zone to, and what holds in all of
-- them.
use satel_integra.Common.{ℕ, ◌^◌, ◌≤◌, ◌<◌, ◌≡◌, Bool, true, false, ◌&&◌, arith}
use satel_integra.Error.{SatelError}
use satel_integra.Parsers.Temperature.{ℤ}
use satel_integra.State.{Zone, new_zone}
use satel_integra.Temperature.{
  TempLimits, record_error, record_success, reset_sensor, is_blocked, refuse,
}

-- One call for a zone's temperature: a blocked zone is refused, by
-- `get_zone_temperature_with_blocking`; or it is read, with an error or a temperature; or the sensor is
-- reset. If `tested` is true, every reading is made by the blocking call, for a zone that is not blocked;
-- if it is false, also by those that do not look, such as `get_zone_temperature_raw` and
-- `get_all_zone_temperatures`.
pub data Step (limits : TempLimits) (tested : Bool) : Zone → Zone → Type 0 where
  refused : (z : Zone) → is_blocked limits z ≡ true → Step limits tested z (refuse limits z).0
  failed :
      (z : Zone) (now : ℕ) (error : SatelError)
      → tested && is_blocked limits z ≡ false
      → Step limits tested z (record_error limits now error z).0
  succeeded :
      (z : Zone) (now : ℕ) (temp : ℤ)
      → tested && is_blocked limits z ≡ false
      → Step limits tested z (record_success now temp z)
  reset : (z : Zone) → Step limits tested z (reset_sensor z)

pub data Reachable (limits : TempLimits) (tested : Bool) : Zone → Type 0 where
  start : (now id : ℕ) → Reachable limits tested (new_zone now id)
  after :
      (z z' : Zone)
      → Reachable limits tested z
      → Step limits tested z z'
      → Reachable limits tested z'

-- The limits allow an error and a wait, and fit 32 bits.
pub record IsUsable (limits : TempLimits) : Type 0 where
  pub timeouts : 1 ≤ limits.max_timeout_errors
  pub sensors : 1 ≤ limits.max_sensor_errors
  pub waits : 1 ≤ limits.unblock_after_cycles
  pub timeouts_fit : limits.max_timeout_errors < 2 ^ 32
  pub sensors_fit : limits.max_sensor_errors < 2 ^ 32
  pub waits_fit : limits.unblock_after_cycles < 2 ^ 32

-- With unblocking, the next refusal is not overdue.
abbrev pub IsWaiting : TempLimits → Zone → Type 0
IsWaiting limits z =
    limits.unblock_enabled ≡ true → z.temperature_blocked_cycles < limits.unblock_after_cycles

-- No counter of errors is past its limit.
pub record WithinLimits (limits : TempLimits) (z : Zone) : Type 0 where
  pub timeouts : z.temperature_timeout_errors_current ≤ limits.max_timeout_errors
  pub sensors : z.temperature_sensor_errors_current ≤ limits.max_sensor_errors

module _ (limits : TempLimits) (waits : 1 ≤ limits.unblock_after_cycles) where
  error-IsWaiting :
      (z : Zone) (now : ℕ) (error : SatelError)
      → IsWaiting limits z
      → IsWaiting limits (record_error limits now error z).0
  unfolding record_error
  error-IsWaiting z now SatelError.timeout h on = let old = h on in ground arith
  error-IsWaiting z now SatelError.temperature_not_supported_or_time_out h on =
      let old = h on in ground arith
  error-IsWaiting z now SatelError.temperature_sensor_error h on = let old = h on in ground arith
  error-IsWaiting z now _ h on = h on

  pub refuse-IsWaiting : (z : Zone) → IsWaiting limits z → IsWaiting limits (refuse limits z).0
  unfolding refuse
  refuse-IsWaiting z h on = let old = h on in ground arith

  step-IsWaiting :
      (tested : Bool) (z z' : Zone)
      → Step limits tested z z'
      → IsWaiting limits z
      → IsWaiting limits z'
  step-IsWaiting tested _ _ (refused z b) h = refuse-IsWaiting z h
  step-IsWaiting tested _ _ (failed z now error b) h = error-IsWaiting z now error h
  step-IsWaiting tested _ _ (succeeded z now temp b) h = unfold record_success in λ on. waits
  step-IsWaiting tested _ _ (reset z) h = unfold reset_sensor in λ on. waits

  pub Reachable-IsWaiting :
      (tested : Bool) (z : Zone) → Reachable limits tested z → IsWaiting limits z
  Reachable-IsWaiting tested _ (start now id) = unfold new_zone in λ on. waits
  Reachable-IsWaiting tested _ (after z₀ z reached step) =
      step-IsWaiting tested z₀ z step (Reachable-IsWaiting tested z₀ reached)
