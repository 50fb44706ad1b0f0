-- ===== src/Troubles/Parts.antt =====
-- src/state.rs: the parts that the parsers of trouble frames return.
use satel_integra.Common.{ℕ, Bool, List}

pub record MainBoardTroubles : Type 0 where
  pub out1_trouble : Bool
  pub out2_trouble : Bool
  pub out3_trouble : Bool
  pub out4_trouble : Bool
  pub kpd_power_trouble : Bool
  pub ex1_ex2_power_trouble : Bool
  pub battery_trouble : Bool
  pub ac_trouble : Bool
  pub dt1_trouble : Bool
  pub dt2_trouble : Bool
  pub dtm_trouble : Bool
  pub rtc_trouble : Bool
  pub no_dtr_signal : Bool
  pub no_battery_present : Bool
  pub external_modem_init_trouble : Bool
  pub external_modem_cmd_trouble : Bool
  pub tel_line_no_voltage : Bool
  pub tel_line_bad_signal : Bool
  pub tel_line_no_signal : Bool
  pub monitoring_station_1_trouble : Bool
  pub monitoring_station_2_trouble : Bool
  pub eeprom_rtc_trouble : Bool
  pub ram_trouble : Bool
  pub main_panel_restart : Bool

pub record EthmPtsaTroubles : Type 0 where
  pub ethm_ping_trouble : Bool
  pub server_id_error : Bool
  pub no_server_connection : Bool
  pub no_ethm_mon_station_1 : Bool
  pub no_ethm_mon_station_2 : Bool
  pub no_gprs_mon_station_1 : Bool
  pub no_gprs_mon_station_2 : Bool
  pub time_server_trouble : Bool
  pub gsm_init_error : Bool
  pub ip_mon_station_1_trouble : Bool
  pub ip_mon_station_2_trouble : Bool

pub record TroublesPart1Data : Type 0 where
  pub is_memory : Bool
  pub technical_zones : List Bool
  pub expanders_ac : List Bool
  pub expanders_battery : List Bool
  pub expanders_no_battery : List Bool
  pub main_board : MainBoardTroubles
  pub ethm_ptsa : EthmPtsaTroubles
  pub read_at : ℕ

pub record TroublesPart2Data : Type 0 where
  pub is_memory : Bool
  pub card_readers_head_a_or_synchro : List Bool
  pub card_readers_head_b_or_charging : List Bool
  pub expanders_supply_overload : List Bool
  pub acu_jammed_or_short_circuit : List Bool
  pub read_at : ℕ

pub record TroublesMemoryPart2Data : Type 0 where
  pub card_readers_head_a_or_synchro : List Bool
  pub card_readers_head_b_or_charging : List Bool
  pub expanders_supply_overload : List Bool
  pub acu_jammed_or_short_circuit : List Bool
  pub keypad_restart : List Bool
  pub expander_restart : List Bool
  pub sim_cme_error : ℕ
  pub sim_cme_error_memory : ℕ
  pub read_at : ℕ

pub record TroublesPart3Data : Type 0 where
  pub is_memory : Bool
  pub acu_jam_levels : List ℕ
  pub wireless_devices_low_battery : List Bool
  pub wireless_devices_no_comm : List Bool
  pub wireless_outputs_no_comm : List Bool
  pub read_at : ℕ

pub record TroublesMemoryPart3Data : Type 0 where
  pub acu_jammed_or_short_circuit : List Bool
  pub acu_jammed_or_short_circuit_memory : List Bool
  pub wireless_devices_low_battery : List Bool
  pub wireless_devices_no_comm : List Bool
  pub wireless_outputs_no_comm : List Bool
  pub read_at : ℕ

pub record TroublesPart4Data : Type 0 where
  pub is_memory : Bool
  pub expanders_no_comm : List Bool
  pub expanders_substituted : List Bool
  pub keypads_no_comm : List Bool
  pub keypads_substituted : List Bool
  pub ethm_no_lan_or_intrs_no_dsr : List Bool
  pub expanders_tamper : List Bool
  pub keypads_tamper : List Bool
  pub keypad_init_errors : List Bool
  pub auxiliary_stm_troubles : ℕ
  pub read_at : ℕ

pub record TroublesPart5Data : Type 0 where
  pub is_memory : Bool
  pub masters_key_fobs_low_battery : List Bool
  pub users_key_fobs_low_battery : List Bool
  pub read_at : ℕ

pub record TroublesMemoryPart5Data : Type 0 where
  pub zone_long_violation : List Bool
  pub zone_no_violation : List Bool
  pub zone_tamper : List Bool
  pub read_at : ℕ

pub record TroublesPart6Data : Type 0 where
  pub is_memory : Bool
  pub wireless_devices_low_battery : List Bool
  pub wireless_devices_no_comm : List Bool
  pub wireless_outputs_no_comm : List Bool
  pub read_at : ℕ

pub record TroublesPart7Data : Type 0 where
  pub is_memory : Bool
  pub technical_zones : List Bool
  pub technical_zones_memory : List Bool
  pub acu_jam_levels : List ℕ
  pub read_at : ℕ

pub record TroublesMemoryPart7Data : Type 0 where
  pub zone_long_violation : List Bool
  pub zone_no_violation : List Bool
  pub zone_tamper : List Bool
  pub read_at : ℕ

pub record GsmModuleTroubles : Type 0 where
  pub module_address : ℕ
  pub no_ethm_mon_station_1 : Bool
  pub no_ethm_mon_station_2 : Bool
  pub no_gprs_sim1_mon_station_1 : Bool
  pub no_gprs_sim1_mon_station_2 : Bool
  pub no_gprs_sim2_mon_station_1 : Bool
  pub no_gprs_sim2_mon_station_2 : Bool
  pub no_sms_sim1_mon_station_1 : Bool
  pub no_sms_sim1_mon_station_2 : Bool
  pub no_sms_sim2_mon_station_1 : Bool
  pub no_sms_sim2_mon_station_2 : Bool
  pub wrong_sim1_pin : Bool
  pub wrong_sim2_pin : Bool
  pub sim1_logging_error : Bool
  pub sim2_logging_error : Bool
  pub sim1_credit_low : Bool
  pub sim2_credit_low : Bool
  pub sim1_sms_error : Bool
  pub sim2_sms_error : Bool
  pub gsm_jamming : Bool
  pub settings_crc_error : Bool
  pub missing_module : Bool
  pub changed_module : Bool
  pub satel_server_conn_error : Bool
  pub mail_server_conn_error : Bool
  pub ntp_server_conn_error : Bool
  pub sim1_cme_error : ℕ
  pub sim2_cme_error : ℕ

pub record TroublesPart8Data : Type 0 where
  pub is_memory : Bool
  pub gsm_modules : List GsmModuleTroubles
  pub read_at : ℕ

pub data TroublesData : Type 0 where
  part1 : TroublesPart1Data → TroublesData
  part2 : TroublesPart2Data → TroublesData
  memory_part2 : TroublesMemoryPart2Data → TroublesData
  part3 : TroublesPart3Data → TroublesData
  memory_part3 : TroublesMemoryPart3Data → TroublesData
  part4 : TroublesPart4Data → TroublesData
  part5 : TroublesPart5Data → TroublesData
  memory_part5 : TroublesMemoryPart5Data → TroublesData
  part6 : TroublesPart6Data → TroublesData
  part7 : TroublesPart7Data → TroublesData
  memory_part7 : TroublesMemoryPart7Data → TroublesData
  part8 : TroublesPart8Data → TroublesData
