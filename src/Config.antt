-- ===== src/Config.antt =====
-- src/config.rs: the configuration and its checks. A text is the list of its bytes.
pub mod Validation
mod Runs
use satel_integra.Common.{
  ℕ, ◌+◌, ◌≤◌, ◌<◌, Bool, true, false, not, ◌&&◌, ◌||◌, Option, none, some, List, [], ◌∷◌, ◌==◌,
  ltb, if◌then◌else◌, length,
}
use satel_integra.Error.{SatelError, Result, ok, err, ◌>>=◌, ◌>>◌, guard}

pub record TemperatureProbe : Type 0 where
  pub zone_id : ℕ
  pub interval_minutes : ℕ
  pub max_timeout_errors : ℕ
  pub max_sensor_errors : ℕ
  pub unblock_enabled : Bool
  pub unblock_after_cycles : ℕ

pub data ConnectionConfig : Type 0 where
  tcp : List ℕ → ℕ → ConnectionConfig
  uart : List ℕ → ℕ → ConnectionConfig

pub record Config : Type 0 where
  pub connection : ConnectionConfig
  pub encryption : Bool
  pub integration_key : Option (List ℕ)
  pub read_timeout_ms : ℕ
  pub write_timeout_ms : ℕ
  pub temp_read_timeout_ms : ℕ
  pub buffer_timeout_ms : ℕ
  pub user_code : Option (List ℕ)
  pub auto_reconnect : Bool
  pub temp_blocking_enabled : Bool
  pub temp_max_timeout_errors : ℕ
  pub temp_max_sensor_errors : ℕ
  pub io_tamper_invert : List ℕ
  pub io_alarm_invert : List ℕ
  pub io_violation_invert : List ℕ
  pub io_tamper_alarm_invert : List ℕ
  pub io_alarm_memory_invert : List ℕ
  pub io_tamper_alarm_memory_invert : List ℕ
  pub io_bypass_invert : List ℕ
  pub io_no_violation_trouble_invert : List ℕ
  pub io_long_violation_trouble_invert : List ℕ
  pub auto_read_zones_violation : Bool
  pub auto_read_zones_tamper : Bool
  pub auto_read_zones_alarm : Bool
  pub auto_read_zones_tamper_alarm : Bool
  pub auto_read_zones_alarm_memory : Bool
  pub auto_read_zones_tamper_alarm_memory : Bool
  pub auto_read_zones_bypass : Bool
  pub auto_read_zones_no_violation_trouble : Bool
  pub auto_read_zones_long_violation_trouble : Bool
  pub auto_read_partitions_armed_suppressed : Bool
  pub auto_read_partitions_armed_really : Bool
  pub auto_read_partitions_alarm : Bool
  pub auto_read_partitions_alarm_memory : Bool
  pub auto_read_partitions_entry_time : Bool
  pub auto_read_partitions_exit_time : Bool
  pub auto_read_outputs_state : Bool
  pub auto_read_system_troubles : Bool
  pub auto_read_troubles_memory : Bool
  pub temperature_probes : List TemperatureProbe
  pub emit_unchanged_temperatures : Bool
  pub emit_unchanged_zones : Bool
  pub emit_unchanged_outputs : Bool
  pub emit_unchanged_partitions : Bool
  pub emit_unchanged_troubles : Bool
  pub emit_unchanged_system_status : Bool
  pub extended_name_read : Bool
  pub max_missed_pings : ℕ

-- `Config::default`
abbrev pub default_config : Config
default_config = record {
  connection = tcp (b'l' ∷ b'o' ∷ b'c' ∷ b'a' ∷ b'l' ∷ b'h' ∷ b'o' ∷ b's' ∷ b't' ∷ []) 7094;
  encryption = false;
  integration_key = none;
  read_timeout_ms = 2000;
  write_timeout_ms = 500;
  temp_read_timeout_ms = 2000;
  buffer_timeout_ms = 10000;
  user_code = none;
  auto_reconnect = true;
  temp_blocking_enabled = true;
  temp_max_timeout_errors = 4;
  temp_max_sensor_errors = 10;
  io_tamper_invert = [];
  io_alarm_invert = [];
  io_violation_invert = [];
  io_tamper_alarm_invert = [];
  io_alarm_memory_invert = [];
  io_tamper_alarm_memory_invert = [];
  io_bypass_invert = [];
  io_no_violation_trouble_invert = [];
  io_long_violation_trouble_invert = [];
  auto_read_zones_violation = false;
  auto_read_zones_tamper = false;
  auto_read_zones_alarm = false;
  auto_read_zones_tamper_alarm = false;
  auto_read_zones_alarm_memory = false;
  auto_read_zones_tamper_alarm_memory = false;
  auto_read_zones_bypass = false;
  auto_read_zones_no_violation_trouble = false;
  auto_read_zones_long_violation_trouble = false;
  auto_read_partitions_armed_suppressed = false;
  auto_read_partitions_armed_really = false;
  auto_read_partitions_alarm = false;
  auto_read_partitions_alarm_memory = false;
  auto_read_partitions_entry_time = false;
  auto_read_partitions_exit_time = false;
  auto_read_outputs_state = false;
  auto_read_system_troubles = false;
  auto_read_troubles_memory = false;
  temperature_probes = [];
  emit_unchanged_temperatures = false;
  emit_unchanged_zones = false;
  emit_unchanged_outputs = false;
  emit_unchanged_partitions = false;
  emit_unchanged_troubles = false;
  emit_unchanged_system_status = false;
  extended_name_read = true;
  max_missed_pings = 3;
}

unfoldable pub is_auto_read_enabled : Config → Bool
is_auto_read_enabled c =
    c.auto_read_zones_violation
    || (c.auto_read_zones_tamper
        || (c.auto_read_zones_alarm
            || (c.auto_read_zones_tamper_alarm
                || (c.auto_read_zones_alarm_memory
                    || (c.auto_read_zones_tamper_alarm_memory
                        || (c.auto_read_zones_bypass
                            || (c.auto_read_zones_no_violation_trouble
                                || (c.auto_read_zones_long_violation_trouble
                                    || (c.auto_read_partitions_armed_suppressed
                                        || (c.auto_read_partitions_armed_really
                                            || (c.auto_read_partitions_alarm
                                                || (c.auto_read_partitions_alarm_memory
                                                    || (c.auto_read_partitions_entry_time
                                                        || (c.auto_read_partitions_exit_time
                                                            || (c.auto_read_outputs_state
                                                            || (c.auto_read_system_troubles
                                                            || (c.auto_read_troubles_memory)))))))))))))))))

pub is_polling_enabled : Config → Bool
is_polling_enabled c = elim c.temperature_probes [ [] ↦ false | p ∷ ps ↦ true ]

abbrev pub min_unblock_after_cycles : ℕ
min_unblock_after_cycles = 10

-- `str::is_ascii`
pub is_ascii : List ℕ → Bool
is_ascii [] = true
is_ascii (b ∷ bs) = ltb b 128 && is_ascii bs

is_uart : ConnectionConfig → Bool
is_uart (tcp host port) = false
is_uart (uart path baud_rate) = true

key_of : Option (List ℕ) → Result (List ℕ)
key_of none = err SatelError.invalid_integration_key
key_of (some key) = ok key

-- The part of `validate` under `if self.encryption`.
validate_encryption : Config → Result (Unit {0})
unfolding key_of is_ascii is_uart
validate_encryption c = do
  key ← key_of c.integration_key
  guard (not ((length key == 0) || ltb 12 (length key))) SatelError.invalid_integration_key
  guard (is_ascii key) SatelError.invalid_integration_key
  guard (not (is_uart c.connection)) SatelError.invalid_integration_key

-- `seen_zones.contains`; `insert` answers whether the value is new.
pub seen : List ℕ → ℕ → Bool
seen [] z = false
seen (y ∷ ys) z = (y == z) || seen ys z

-- The loop over the probes, with the zones that it has seen.
pub validate_probes : List ℕ → List TemperatureProbe → Result (Unit {0})
unfolding seen
validate_probes seen_zones [] = ok tt
validate_probes seen_zones (p ∷ ps) =
    let rest = validate_probes (p.zone_id ∷ seen_zones) ps in
    do
      guard (not ((p.zone_id == 0) || ltb 256 p.zone_id)) SatelError.invalid_config
      guard (not (seen seen_zones p.zone_id)) SatelError.invalid_config
      guard (not (p.unblock_enabled && ltb p.unblock_after_cycles min_unblock_after_cycles))
          SatelError.invalid_config
      rest

unfoldable pub validate : Config → Result (Unit {0})
unfolding validate_encryption validate_probes
validate c = do
  if c.encryption then validate_encryption c else ok tt
  validate_probes [] c.temperature_probes
