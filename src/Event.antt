-- ===== src/Event.antt =====
-- src/event.rs: the events that the modelled operations send.
use satel_integra.Common.{ℕ, Bool}
use satel_integra.State.{TemperatureSensorStatus, SystemStatus}
use satel_integra.Command.{SatelResult}
use satel_integra.Parsers.Temperature.{ℤ}
use satel_integra.Parsers.Versions.{IntegraVersion, EthmVersion, AutoReadReport}
use satel_integra.Telemetry.{ConnectionState, ConnectionStatistics}
use satel_integra.Troubles.Types.{TroubleType, CmeSource}

pub data SatelEvent : Type 0 where
  zone_violation zone_tamper zone_alarm zone_tamper_alarm : ℕ → Bool → SatelEvent
  zone_alarm_memory zone_tamper_alarm_memory zone_bypass : ℕ → Bool → SatelEvent
  zone_no_violation_trouble zone_long_violation_trouble : ℕ → Bool → SatelEvent
  partition_armed partition_armed_really partition_alarm : ℕ → Bool → SatelEvent
  partition_alarm_memory partition_entry_time : ℕ → Bool → SatelEvent
  partition_exit_time_gt_10s partition_exit_time_lt_10s output_changed : ℕ → Bool → SatelEvent
  zone_temperature_changed : ℕ → ℤ → SatelEvent
  zone_temperature_error : ℕ → TemperatureSensorStatus → SatelEvent
  panel_message : SatelResult → SatelEvent
  connection_changed : ConnectionState → SatelEvent
  connection_statistics : ConnectionStatistics → SatelEvent
  integra_version_received : IntegraVersion → SatelEvent
  ethm_version_received : EthmVersion → SatelEvent
  auto_read_configured : AutoReadReport → SatelEvent
  system_status_changed : SystemStatus → SatelEvent
  trouble trouble_memory : TroubleType → Bool → SatelEvent
  acu_jam_level : (jammed_module level : ℕ) → SatelEvent
  cme_error : (source : CmeSource) (sim code : ℕ) (memory : Bool) → SatelEvent
