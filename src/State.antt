-- ===== src/State.antt =====
-- src/state.rs: the cached zones, partitions and outputs. A flag and the time of its last reading,
-- `tamper_state` and `tamper_read_at` for one, are a `Cell` here, and a `HashMap` is an association
-- list. The names and the parameters read by command 0xEE (`reaction`, `function` and the like) are left
-- out of these records, since no operation that is modelled reads or writes them there.
use satel_integra.Common.{ℕ, zero, suc, ◌+◌, Bool, false, Option, none, List, [], ◌∷◌}
use satel_integra.Parsers.Temperature.{ℤ, pos}
use satel_integra.Parsers.Versions.{IntegraVersion, EthmVersion, AutoReadReport}
use satel_integra.Troubles.Types.{TroubleType, CmeSource}

pub data TemperatureSensorStatus : Type 0 where
  no_read ok sensor_missing communication_error : TemperatureSensorStatus
  block_sensor_missing block_communication_error retry_read : TemperatureSensorStatus

pub record Cell : Type 0 where
  pub state : Bool
  pub read_at : Option ℕ

abbrev pub unread : Cell
unread = record { state = false; read_at = none }

pub record Zone : Type 0 where
  pub id : ℕ
  pub temperature_value : ℤ
  pub temperature_read_at : ℕ
  pub temperature_status : TemperatureSensorStatus
  pub temperature_timeout_errors_total : ℕ
  pub temperature_sensor_errors_total : ℕ
  pub temperature_timeout_errors_current : ℕ
  pub temperature_sensor_errors_current : ℕ
  pub temperature_blocked_cycles : ℕ
  pub tamper : Cell
  pub alarm : Cell
  pub violation : Cell
  pub tamper_alarm : Cell
  pub alarm_memory : Cell
  pub tamper_alarm_memory : Cell
  pub bypass : Cell
  pub no_violation_trouble : Cell
  pub long_violation_trouble : Cell

-- `Zone::new`
unfoldable pub new_zone : ℕ → ℕ → Zone
new_zone now id = record {
  id = id;
  temperature_value = pos 0;
  temperature_read_at = now;
  temperature_status = TemperatureSensorStatus.no_read;
  temperature_timeout_errors_total = 0;
  temperature_sensor_errors_total = 0;
  temperature_timeout_errors_current = 0;
  temperature_sensor_errors_current = 0;
  temperature_blocked_cycles = 0;
  tamper = unread;
  alarm = unread;
  violation = unread;
  tamper_alarm = unread;
  alarm_memory = unread;
  tamper_alarm_memory = unread;
  bypass = unread;
  no_violation_trouble = unread;
  long_violation_trouble = unread;
}

pub record Partition : Type 0 where
  pub id : ℕ
  pub armed_suppressed : Cell
  pub armed_really : Cell
  pub alarm : Cell
  pub alarm_memory : Cell
  pub entry_time : Cell
  pub exit_time_gt_10s : Cell
  pub exit_time_lt_10s : Cell

-- `Partition::new`
pub new_partition : ℕ → Partition
new_partition id = record {
  id = id;
  armed_suppressed = unread;
  armed_really = unread;
  alarm = unread;
  alarm_memory = unread;
  entry_time = unread;
  exit_time_gt_10s = unread;
  exit_time_lt_10s = unread;
}

pub record Output : Type 0 where
  pub id : ℕ
  pub output : Cell

-- `Output::new`
pub new_output : ℕ → Output
new_output id = record { id = id; output = unread }

pub record SystemStatus : Type 0 where
  pub service_mode : Bool
  pub troubles_present : Bool
  pub troubles_memory : Bool
  pub rtc : ℕ

pub record SatelState : Type 0 where
  pub zones : List Zone
  pub outputs : List Output
  pub partitions : List Partition
  pub integra_version : Option IntegraVersion
  pub ethm_version : Option EthmVersion
  pub system_status : Option SystemStatus
  pub trouble_flags : List ((TroubleType × Bool) × Bool)
  pub acu_jam_levels : List (ℕ × ℕ)
  pub cme_errors : List ((CmeSource × ℕ × Bool) × ℕ)
  pub auto_read_report : Option AutoReadReport

-- `for i in first..first + count { push(make(i)) }`
push_range {ℓ} : {A : Type ℓ} → (ℕ → A) → ℕ → ℕ → List A
push_range make first zero = []
push_range make first (suc count) = make first ∷ push_range make (first + 1) count

-- `SatelState::new`
unfoldable pub new_state : ℕ → SatelState
unfolding push_range new_zone new_output new_partition
new_state now = record {
  zones = push_range (new_zone now) 1 256;
  outputs = push_range new_output 1 256;
  partitions = push_range new_partition 1 32;
  integra_version = none;
  ethm_version = none;
  system_status = none;
  trouble_flags = [];
  acu_jam_levels = [];
  cme_errors = [];
  auto_read_report = none;
}
