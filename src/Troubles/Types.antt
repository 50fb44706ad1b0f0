-- ===== src/Troubles/Types.antt =====
-- src/state.rs and src/parsers/system.rs: the troubles and what a frame of troubles decodes to.
use satel_integra.Common.{ℕ, Bool}
use mathlib.Core.HLevel.{Discrete}
use native.Mathlib.Decide.{ℕ_discrete}

pub data CmeSource : Type 0 where
  gsm_module : ℕ → CmeSource
  panel : CmeSource

pub data TroubleType : Type 0 where
  main_board_ac_loss main_board_battery_low main_board_battery_missing : TroubleType
  main_board_kpd_power_overload main_board_ex_power_overload : TroubleType
  main_board_data_bus_dt1 main_board_data_bus_dt2 main_board_data_bus_dtm : TroubleType
  rtc_loss no_dtr_signal external_modem_init_trouble external_modem_cmd_trouble : TroubleType
  telephone_line_no_voltage telephone_line_bad_signal telephone_line_no_signal : TroubleType
  monitoring_station1_trouble monitoring_station2_trouble eeprom_rtc_trouble : TroubleType
  ram_memory_error main_panel_restart_memory ethm_monitoring_station1_error : TroubleType
  ethm_monitoring_station2_error gprs_monitoring_station1_error : TroubleType
  gprs_monitoring_station2_error ip_monitoring_station1_trouble : TroubleType
  ip_monitoring_station2_trouble time_server_trouble gsm_init_error : TroubleType
  auxiliary_stm_troubles : TroubleType
  main_board_out_overload technical_zone_trouble expander_ac_loss : ℕ → TroubleType
  expander_battery_low expander_battery_missing expander_supply_overload : ℕ → TroubleType
  expander_no_comm expander_substituted expander_tamper : ℕ → TroubleType
  expander_card_reader_head_a expander_card_reader_head_b : ℕ → TroubleType
  expander_acu_jammed_or_short_circuit keypad_no_comm keypad_substituted : ℕ → TroubleType
  keypad_tamper keypad_init_error keypad_restart ethm_no_lan_cable : ℕ → TroubleType
  ethm_ping_trouble ethm_server_id_error ethm_satel_server_connection_error : ℕ → TroubleType
  gsm_ethm_station1_error gsm_ethm_station2_error : ℕ → TroubleType
  gsm_gprs_sim1_station1_error gsm_gprs_sim1_station2_error : ℕ → TroubleType
  gsm_gprs_sim2_station1_error gsm_gprs_sim2_station2_error : ℕ → TroubleType
  gsm_sms_sim1_station1_error gsm_sms_sim1_station2_error : ℕ → TroubleType
  gsm_sms_sim2_station1_error gsm_sms_sim2_station2_error gsm_jamming : ℕ → TroubleType
  gsm_settings_crc_error gsm_module_missing gsm_module_changed : ℕ → TroubleType
  gsm_server_conn_error gsm_mail_server_conn_error gsm_ntp_server_conn_error : ℕ → TroubleType
  wireless_device_low_battery wireless_device_no_comm wireless_output_no_comm : ℕ → TroubleType
  master_key_fob_low_battery user_key_fob_low_battery : ℕ → TroubleType
  zone_long_violation_trouble zone_no_violation_trouble zone_tamper_trouble : ℕ → TroubleType
  expander_restart : ℕ → TroubleType
  gsm_sim_pin_error gsm_sim_logging_error gsm_sim_credit_low : ℕ → ℕ → TroubleType
  gsm_sim_sms_error generic_trouble : ℕ → ℕ → TroubleType

pub data TroubleItem : Type 0 where
  flag : (trouble : TroubleType) (memory active : Bool) → TroubleItem
  acu_jam_level : (trouble_module level : ℕ) → TroubleItem
  cme_error : (source : CmeSource) (sim : ℕ) (memory : Bool) (code : ℕ) → TroubleItem

pub TroubleType-discrete : Discrete TroubleType
TroubleType-discrete = hlevel ℕ_discrete

pub CmeSource-discrete : Discrete CmeSource
CmeSource-discrete = hlevel ℕ_discrete
