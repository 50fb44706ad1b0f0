-- ===== src/Catalog/Outputs/Types.antt =====
-- src/output_catalog.rs: `OutputFunction`.
use satel_integra.Common.{ℕ}

pub data OutputFunction : Type 0 where
  unused burglary_alarm fire_and_burglary_alarm fire_alarm keypad_alarm : OutputFunction
  keypad_fire_alarm keypad_panic_alarm keypad_medical_alarm tamper_alarm : OutputFunction
  alarm_day duress_alarm chime silent_alarm technical_alarm zone_violation : OutputFunction
  video_disarmed video_armed ready_indicator bypasses_indicator : OutputFunction
  exit_delay_indicator entry_delay_indicator armed_indicator : OutputFunction
  all_armed_indicator arm_disarm_confirmation mono_switch bi_switch timer : OutputFunction
  trouble_indicator main_board_ac_trouble zones_ac_trouble expanders_ac_trouble : OutputFunction
  main_board_battery_trouble zones_battery_trouble expander_battery_trouble : OutputFunction
  zone_trouble dialer_active ground_start monitoring_confirmation : OutputFunction
  service_mode_indicator vibration_sensors_test cash_machine_bypass_indicator : OutputFunction
  power_supply power_supply_armed resettable_power_supply : OutputFunction
  fire_detectors_power_supply partition_blocked_indicator outputs_logic_and : OutputFunction
  outputs_logic_or no_guard_round long_main_board_ac_trouble : OutputFunction
  long_expanders_ac_trouble outputs_signaling_end code_entered_signaling : OutputFunction
  code_used_signaling door_open_indicator door_long_open_indicator : OutputFunction
  burglary_alarm_no_tamper_no_fire events_memory50_percent : OutputFunction
  events_memory90_percent auto_arm_delay_signaling auto_arm_delay_indicator : OutputFunction
  unauthorized_door_opening unauthorized_door_opening_alarm : OutputFunction
  ip_monitoring_trouble telephone_line_trouble synthesizer_selectable : OutputFunction
  telephone_relay card_read card_hold card_read_in_module wireless_zone_no_comm : OutputFunction
  wireless_output_no_comm wireless_device_battery_trouble roller_blind_up : OutputFunction
  roller_blind_down expander_card_head_a expander_card_head_b zones_logic_and : OutputFunction
  unverified_alarm verified_alarm verification_without_alarm : OutputFunction
  verification_bypass_indicator zone_test_indicator arm_mode_indicator : OutputFunction
  internal_siren tamper_indicator key_fobs_battery_trouble : OutputFunction
  wireless_jamming_trouble thermostat zone_masking_signaling : OutputFunction
  zone_masking_indicator module_lock : OutputFunction
  synthesizer telephone_relay_numbered unknown : ℕ → OutputFunction
