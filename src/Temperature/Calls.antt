-- ===== src/Temperature/Calls.antt =====
-- src/client.rs and src/client_internal.rs: the calls for a zone's temperature, on the shared state.
-- What `exchange` returns is an argument, and `Local::now()` is `now`. A reading is returned as the
-- cached zone that it stands in, of which `to_zone_temperature` copies the temperature's fields.
pub mod Steps
use satel_integra.Common.{
  ℕ, ◌+◌, ◌-◌, ◌%◌, ◌^◌, Bool, true, false, not, ◌||◌, Option, none, some, List, [], ◌∷◌, ◌==◌, ltb,
  if◌then◌else◌, get_elem?, set,
}
use satel_integra.Config.{Config}
use satel_integra.Error.{SatelError, Result, ok, err}
use satel_integra.Event.{SatelEvent}
use satel_integra.Parsers.Temperature.{ℤ, pos, negsuc, process_zone_temperature}
use satel_integra.State.{Zone, SatelState, TemperatureSensorStatus}
use satel_integra.Temperature.{
  temp_limits, record_error, record_success, reset_sensor, is_blocked, refuse,
}

-- `(zone_id.wrapping_sub(1) % 256) as usize`
abbrev pub zone_index : ℕ → ℕ
zone_index zone_id = (zone_id + (2 ^ 16 - 1)) % 2 ^ 16 % 256

pub put_zone : SatelState → ℕ → Zone → SatelState
put_zone state zone_id zone = record state { zones = set state.zones (zone_index zone_id) zone }

-- On the zone that `get_mut` finds.
error_on :
    Config → ℕ → ℕ → SatelError → SatelState → Option Zone → Result (SatelState × List SatelEvent)
unfolding put_zone
error_on config now zone_id error state none = err SatelError.invalid_frame
error_on config now zone_id error state (some zone) =
    let (zone', status) = record_error (temp_limits config zone_id) now error zone in
    ok (put_zone state zone_id zone', SatelEvent.zone_temperature_error zone.id status ∷ [])

unfoldable pub update_temp_error :
    Config → ℕ → ℕ → SatelError → SatelState → Result (SatelState × List SatelEvent)
unfolding error_on
update_temp_error config now zone_id error state =
    error_on config now zone_id error state (get_elem? state.zones (zone_index zone_id))

success_on : ℕ → ℕ → ℤ → SatelState → Option Zone → Result (SatelState × ℤ)
unfolding put_zone
success_on now id temp state none = err SatelError.invalid_frame
success_on now id temp state (some zone) =
    ok (put_zone state id (record_success now temp zone), zone.temperature_value)

-- The old temperature is returned.
unfoldable pub update_temperature_success_internal :
    ℕ → ℕ → ℤ → SatelState → Result (SatelState × ℤ)
unfolding success_on
update_temperature_success_internal now id temp state =
    success_on now id temp state (get_elem? state.zones (zone_index id))

reset_on : ℕ → SatelState → Option Zone → Result SatelState
unfolding put_zone
reset_on zone_id state none = err SatelError.invalid_frame
reset_on zone_id state (some zone) = ok (put_zone state zone_id (reset_sensor zone))

unfoldable pub reset_temperature_sensor : ℕ → SatelState → Result SatelState
unfolding reset_on
reset_temperature_sensor zone_id state =
    if (zone_id == 0) || ltb 256 zone_id
    then err SatelError.invalid_config
    else reset_on zone_id state (get_elem? state.zones (zone_index zone_id))

-- What a call returns, the state that it leaves and the events that it sends.
pub record Called : Type 0 where
  pub result : Result Zone
  pub state : SatelState
  pub sent : List SatelEvent

-- `(old_temp - temp).abs() > 0.01`, on half degrees.
same_temp : ℤ → ℤ → Bool
same_temp (pos a) (pos b) = a == b
same_temp (negsuc a) (negsuc b) = a == b
same_temp _ _ = false

then_err : SatelError → SatelState → Result (SatelState × List SatelEvent) → Called
then_err returned state (err e) = record { result = err e; state = state; sent = [] }
then_err returned state (ok (state', sent)) = record {
  result = err returned;
  state = state';
  sent = sent;
}

-- `self.update_temp_error(zone_id, &e)?; Err(returned)`
unfoldable pub failed_with : Config → ℕ → ℕ → SatelError → SatelError → SatelState → Called
unfolding update_temp_error then_err
failed_with config now zone_id error returned state =
    then_err returned state (update_temp_error config now zone_id error state)

found : Option Zone → Result Zone
found none = err SatelError.invalid_frame
found (some zone) = ok zone

tell_reading : Config → ℕ → ℤ → SatelState → Result (SatelState × ℤ) → Called
unfolding same_temp found
tell_reading config id temp state (err e) = record { result = err e; state = state; sent = [] }
tell_reading config id temp state (ok (state', old_temp)) =
    let tells = config.emit_unchanged_temperatures || not (same_temp old_temp temp) in
    record {
      result = found (get_elem? state'.zones (zone_index id));
      state = state';
      sent = if tells then SatelEvent.zone_temperature_changed id temp ∷ [] else [];
    }

unfoldable pub read_as : Config → ℕ → ℕ → ℤ → SatelState → Called
unfolding update_temperature_success_internal tell_reading
read_as config now id temp state =
    tell_reading config id temp state (update_temperature_success_internal now id temp state)

-- A time-out of the exchange is returned as a missing sensor.
returned_error : SatelError → SatelError
returned_error SatelError.timeout = SatelError.temperature_not_supported_or_time_out
returned_error e = e

on_reading : Config → ℕ → ℕ → SatelState → Result (ℕ × ℤ) → Called
unfolding failed_with read_as
on_reading config now zone_id state (err e) = failed_with config now zone_id e e state
on_reading config now zone_id state (ok (id, temp)) = read_as config now id temp state

unfoldable pub get_zone_temperature_raw : Config → ℕ → ℕ → Result (List ℕ) → SatelState → Called
unfolding on_reading returned_error
get_zone_temperature_raw config now zone_id (err e) state =
    failed_with config now zone_id e (returned_error e) state
get_zone_temperature_raw config now zone_id (ok response) state =
    on_reading config now zone_id state (process_zone_temperature response)

blocked_events : Config → ℕ → Option TemperatureSensorStatus → List SatelEvent
blocked_events config zone_id none = []
blocked_events config zone_id (some status) =
    if config.emit_unchanged_temperatures
    then SatelEvent.zone_temperature_error zone_id status ∷ []
    else []

-- On the zone that is cached. A blocked zone is refused: no exchange is made, and what `raw` would
-- return is not looked at.
unless_blocked : Config → ℕ → SatelState → Called → Option Zone → Called
unfolding put_zone blocked_events
unless_blocked config zone_id state raw none = raw
unless_blocked config zone_id state raw (some info) =
    let limits = temp_limits config zone_id in
    let (zone', status) = refuse limits info in
    if is_blocked limits info
    then record {
      result = err SatelError.temp_too_many_errors;
      state = put_zone state zone_id zone';
      sent = blocked_events config zone_id status;
    }
    else raw

unfoldable pub get_zone_temperature_with_blocking :
    Config → ℕ → ℕ → Result (List ℕ) → SatelState → Called
unfolding unless_blocked get_zone_temperature_raw
get_zone_temperature_with_blocking config now zone_id answer state =
    unless_blocked config zone_id state (get_zone_temperature_raw config now zone_id answer state)
      (get_elem? state.zones (zone_index zone_id))

unfoldable pub get_zone_temperature : Config → ℕ → ℕ → Result (List ℕ) → SatelState → Called
unfolding get_zone_temperature_with_blocking get_zone_temperature_raw
get_zone_temperature config now zone_id answer state =
    if config.temp_blocking_enabled
    then get_zone_temperature_with_blocking config now zone_id answer state
    else get_zone_temperature_raw config now zone_id answer state
