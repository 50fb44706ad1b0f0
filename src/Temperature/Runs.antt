-- ===== src/Temperature/Runs.antt =====
-- A probe that is blocked and tried again.
use satel_integra.Common.{ℕ, suc, ◌*◌, ◌≤◌, ◌≡◌, refl, true, false, some, [], ◌∷◌, get_elem?, arith}
use satel_integra.Config.{Config, TemperatureProbe, default_config, validate}
use satel_integra.Error.{SatelError, ok, err}
use satel_integra.State.{Zone, new_zone, new_state}
use satel_integra.Temperature.{TempLimits, temp_limits, record_error, is_blocked, refuse}
use satel_integra.Temperature.Reachable.{failed, Reachable, start, after, IsUsable}
use satel_integra.Temperature.Retry.{refusals, excess, IsRetried, Reachable-IsRetried}
use satel_integra.Temperature.Calls.{zone_index, get_zone_temperature_with_blocking}
use satel_integra.Temperature.Calls.Steps.{
  AnswersFor, Stepped, get_zone_temperature_with_blocking-Stepped, zero_limit-refused,
}

abbrev limits : TempLimits
limits = record {
  max_timeout_errors = 1;
  max_sensor_errors = 10;
  unblock_enabled = true;
  unblock_after_cycles = 10;
}

usable : IsUsable limits
usable = record {
  timeouts = omega arith;
  sensors = omega arith;
  waits = omega arith;
  timeouts_fit = omega arith;
  sensors_fit = omega arith;
  waits_fit = omega arith;
}

-- The first reading timed out, which is all that the limits allow.
abbrev missing : Zone
missing = (record_error limits 6 SatelError.timeout (new_zone 5 17)).0

-- A reading that does not look whether the zone is blocked took the counter past its limit.
abbrev overdue : Zone
overdue = (record_error limits 7 SatelError.timeout missing).0

overdue_reached : Reachable limits false overdue
overdue_reached =
    after missing overdue
      (after (new_zone 5 17) missing (start 5 17)
        (failed (new_zone 5 17) 6 SatelError.timeout refl))
      (failed missing 7 SatelError.timeout refl)

blocked : is_blocked limits overdue ≡ true
unfolding is_blocked record_error new_zone
blocked = refl

Reachable-IsRetried_example :
    (n : ℕ) × (n ≤ limits.unblock_after_cycles * suc (excess limits overdue))
    × IsRetried limits (refusals limits n overdue)
Reachable-IsRetried_example =
    Reachable-IsRetried limits usable refl false overdue overdue_reached blocked

-- Nine refusals are not enough where the counter is at its limit, nor nineteen where it is past it by
-- one, for which twenty are.
ninth : is_blocked limits (refusals limits 9 missing) ≡ true
unfolding refusals refuse is_blocked record_error new_zone
ninth = refl

nineteenth : is_blocked limits (refusals limits 19 overdue) ≡ true
unfolding refusals refuse is_blocked record_error new_zone
nineteenth = refl

twentieth : is_blocked limits (refusals limits 20 overdue) ≡ false
unfolding refusals refuse is_blocked record_error new_zone
twentieth = refl

cached : get_elem? (new_state 5).zones (zone_index 17) ≡ some (new_zone 5 17)
unfolding new_state new_zone
cached = refl

timed_out : AnswersFor 17 (err SatelError.timeout)
unfolding AnswersFor
timed_out response id temp e p = absurd cc

get_zone_temperature_with_blocking-Stepped_example :
    Stepped default_config 6 17 (new_state 5) (new_zone 5 17) cached (err SatelError.timeout) (
      get_zone_temperature_with_blocking default_config 6 17 (err SatelError.timeout) (new_state 5))
get_zone_temperature_with_blocking-Stepped_example =
    get_zone_temperature_with_blocking-Stepped default_config 6 17 (new_state 5) (new_zone 5 17)
      cached (err SatelError.timeout) timed_out

-- A probe whose limit of time-outs is 0.
abbrev never : TemperatureProbe
never = record {
  zone_id = 17;
  interval_minutes = 5;
  max_timeout_errors = 0;
  max_sensor_errors = 10;
  unblock_enabled = true;
  unblock_after_cycles = 10;
}

abbrev config : Config
config = record default_config { temperature_probes = never ∷ [] }

accepted : validate config ≡ ok tt
unfolding validate
accepted = refl

zero : (temp_limits config 17).max_timeout_errors ≡ 0
unfolding temp_limits
zero = refl

zero_limit-refused_example :
    (get_zone_temperature_with_blocking config 6 17
      (ok (0x7D ∷ 17 ∷ 0 ∷ 150 ∷ []))
      (new_state 5)).result
    ≡ err SatelError.temp_too_many_errors
zero_limit-refused_example =
    zero_limit-refused config 6 17 (ok (0x7D ∷ 17 ∷ 0 ∷ 150 ∷ [])) (new_state 5) (new_zone 5 17)
      cached zero
