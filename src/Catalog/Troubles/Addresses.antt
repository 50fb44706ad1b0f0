-- ===== src/Catalog/Troubles/Addresses.antt =====
-- src/trouble_catalog.rs: the address of a trouble, the device that it concerns. The conversions to
-- u16 widen, so they keep the number.
use satel_integra.Common.{ℕ, Option, none, some}
use satel_integra.Troubles.Types.{
  TroubleType, main_board_ac_loss, main_board_battery_low, main_board_battery_missing,
  main_board_out_overload, main_board_kpd_power_overload, main_board_ex_power_overload,
  main_board_data_bus_dt1, main_board_data_bus_dt2, main_board_data_bus_dtm, rtc_loss,
  no_dtr_signal, external_modem_init_trouble, external_modem_cmd_trouble, telephone_line_no_voltage,
  telephone_line_bad_signal, telephone_line_no_signal, monitoring_station1_trouble,
  monitoring_station2_trouble, eeprom_rtc_trouble, ram_memory_error, main_panel_restart_memory,
  technical_zone_trouble, expander_ac_loss, expander_battery_low, expander_battery_missing,
  expander_supply_overload, expander_no_comm, expander_substituted, expander_tamper,
  expander_card_reader_head_a, expander_card_reader_head_b, expander_acu_jammed_or_short_circuit,
  keypad_no_comm, keypad_substituted, keypad_tamper, keypad_init_error, ethm_no_lan_cable,
  ethm_ping_trouble, ethm_server_id_error, ethm_satel_server_connection_error,
  ethm_monitoring_station1_error, ethm_monitoring_station2_error, gprs_monitoring_station1_error,
  gprs_monitoring_station2_error, ip_monitoring_station1_trouble, ip_monitoring_station2_trouble,
  time_server_trouble, gsm_init_error, gsm_jamming, gsm_sim_pin_error, gsm_sim_logging_error,
  gsm_sim_credit_low, gsm_sim_sms_error, gsm_settings_crc_error, gsm_module_missing,
  gsm_module_changed, gsm_server_conn_error, gsm_mail_server_conn_error, gsm_ntp_server_conn_error,
  wireless_device_low_battery, wireless_device_no_comm, wireless_output_no_comm,
  master_key_fob_low_battery, user_key_fob_low_battery, gsm_ethm_station1_error,
  gsm_ethm_station2_error, gsm_gprs_sim1_station1_error, gsm_gprs_sim1_station2_error,
  gsm_gprs_sim2_station1_error, gsm_gprs_sim2_station2_error, gsm_sms_sim1_station1_error,
  gsm_sms_sim1_station2_error, gsm_sms_sim2_station1_error, gsm_sms_sim2_station2_error,
  zone_long_violation_trouble, zone_no_violation_trouble, zone_tamper_trouble, expander_restart,
  keypad_restart, auxiliary_stm_troubles, generic_trouble,
}

pub data TroubleAddress : Type 0 where
  one : ℕ → TroubleAddress
  pair : ℕ → ℕ → TroubleAddress

unfoldable pub address : TroubleType → Option TroubleAddress
address main_board_ac_loss = some (one 1)
address main_board_battery_low = some (one 1)
address main_board_battery_missing = some (one 1)
address (main_board_out_overload n) = some (one n)
address main_board_kpd_power_overload = some (one 1)
address main_board_ex_power_overload = some (one 1)
address main_board_data_bus_dt1 = some (one 1)
address main_board_data_bus_dt2 = some (one 1)
address main_board_data_bus_dtm = some (one 1)
address rtc_loss = some (one 1)
address no_dtr_signal = some (one 1)
address external_modem_init_trouble = some (one 1)
address external_modem_cmd_trouble = some (one 1)
address telephone_line_no_voltage = some (one 1)
address telephone_line_bad_signal = some (one 1)
address telephone_line_no_signal = some (one 1)
address monitoring_station1_trouble = some (one 1)
address monitoring_station2_trouble = some (one 1)
address eeprom_rtc_trouble = some (one 1)
address ram_memory_error = some (one 1)
address main_panel_restart_memory = some (one 1)
address (technical_zone_trouble n) = some (one n)
address (expander_ac_loss n) = some (one n)
address (expander_battery_low n) = some (one n)
address (expander_battery_missing n) = some (one n)
address (expander_supply_overload n) = some (one n)
address (expander_no_comm n) = some (one n)
address (expander_substituted n) = some (one n)
address (expander_tamper n) = some (one n)
address (expander_card_reader_head_a n) = some (one n)
address (expander_card_reader_head_b n) = some (one n)
address (expander_acu_jammed_or_short_circuit n) = some (one n)
address (keypad_no_comm n) = some (one n)
address (keypad_substituted n) = some (one n)
address (keypad_tamper n) = some (one n)
address (keypad_init_error n) = some (one n)
address (ethm_no_lan_cable n) = some (one n)
address (ethm_ping_trouble n) = some (one n)
address (ethm_server_id_error n) = some (one n)
address (ethm_satel_server_connection_error n) = some (one n)
address ethm_monitoring_station1_error = some (one 1)
address ethm_monitoring_station2_error = some (one 1)
address gprs_monitoring_station1_error = some (one 1)
address gprs_monitoring_station2_error = some (one 1)
address ip_monitoring_station1_trouble = some (one 1)
address ip_monitoring_station2_trouble = some (one 1)
address time_server_trouble = some (one 1)
address gsm_init_error = some (one 1)
address (gsm_jamming n) = some (one n)
address (gsm_sim_pin_error m n) = some (pair m n)
address (gsm_sim_logging_error m n) = some (pair m n)
address (gsm_sim_credit_low m n) = some (pair m n)
address (gsm_sim_sms_error m n) = some (pair m n)
address (gsm_settings_crc_error n) = some (one n)
address (gsm_module_missing n) = some (one n)
address (gsm_module_changed n) = some (one n)
address (gsm_server_conn_error n) = some (one n)
address (gsm_mail_server_conn_error n) = some (one n)
address (gsm_ntp_server_conn_error n) = some (one n)
address (wireless_device_low_battery n) = some (one n)
address (wireless_device_no_comm n) = some (one n)
address (wireless_output_no_comm n) = some (one n)
address (master_key_fob_low_battery n) = some (one n)
address (user_key_fob_low_battery n) = some (one n)
address (gsm_ethm_station1_error n) = some (one n)
address (gsm_ethm_station2_error n) = some (one n)
address (gsm_gprs_sim1_station1_error n) = some (one n)
address (gsm_gprs_sim1_station2_error n) = some (one n)
address (gsm_gprs_sim2_station1_error n) = some (one n)
address (gsm_gprs_sim2_station2_error n) = some (one n)
address (gsm_sms_sim1_station1_error n) = some (one n)
address (gsm_sms_sim1_station2_error n) = some (one n)
address (gsm_sms_sim2_station1_error n) = some (one n)
address (gsm_sms_sim2_station2_error n) = some (one n)
address (zone_long_violation_trouble n) = some (one n)
address (zone_no_violation_trouble n) = some (one n)
address (zone_tamper_trouble n) = some (one n)
address (expander_restart n) = some (one n)
address (keypad_restart n) = some (one n)
address auxiliary_stm_troubles = some (one 1)
address (generic_trouble m n) = none
