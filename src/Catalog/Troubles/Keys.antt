-- ===== src/Catalog/Troubles/Keys.antt =====
-- src/trouble_catalog.rs: the keys of the troubles.
use satel_integra.Common.{Option, none, some}
use satel_integra.Troubles.Types.{
  TroubleType, main_board_ac_loss, main_board_battery_low, main_board_battery_missing,
  main_board_out_overload, main_board_kpd_power_overload, main_board_ex_power_overload,
  main_board_data_bus_dt1, main_board_data_bus_dt2, main_board_data_bus_dtm, rtc_loss,
  no_dtr_signal, external_modem_init_trouble, external_modem_cmd_trouble, telephone_line_no_voltage,
  telephone_line_bad_signal, telephone_line_no_signal, monitoring_station1_trouble,
  monitoring_station2_trouble, eeprom_rtc_trouble, ram_memory_error, main_panel_restart_memory,
  technical_zone_trouble, expander_ac_loss, expander_battery_low, expander_battery_missing,
  expander_supply_overload, expander_no_comm, expander_substituted, expander_tamper,
  expander_card_reader_head_a, expander_card_reader_head_b, expander_acu_jammed_or_short_circuit,
  keypad_no_comm, keypad_substituted, keypad_tamper, keypad_init_error, ethm_no_lan_cable,
  ethm_ping_trouble, ethm_server_id_error, ethm_satel_server_connection_error,
  ethm_monitoring_station1_error, ethm_monitoring_station2_error, gprs_monitoring_station1_error,
  gprs_monitoring_station2_error, ip_monitoring_station1_trouble, ip_monitoring_station2_trouble,
  time_server_trouble, gsm_init_error, gsm_jamming, gsm_sim_pin_error, gsm_sim_logging_error,
  gsm_sim_credit_low, gsm_sim_sms_error, gsm_settings_crc_error, gsm_module_missing,
  gsm_module_changed, gsm_server_conn_error, gsm_mail_server_conn_error, gsm_ntp_server_conn_error,
  wireless_device_low_battery, wireless_device_no_comm, wireless_output_no_comm,
  master_key_fob_low_battery, user_key_fob_low_battery, gsm_ethm_station1_error,
  gsm_ethm_station2_error, gsm_gprs_sim1_station1_error, gsm_gprs_sim1_station2_error,
  gsm_gprs_sim2_station1_error, gsm_gprs_sim2_station2_error, gsm_sms_sim1_station1_error,
  gsm_sms_sim1_station2_error, gsm_sms_sim2_station1_error, gsm_sms_sim2_station2_error,
  zone_long_violation_trouble, zone_no_violation_trouble, zone_tamper_trouble, expander_restart,
  keypad_restart, auxiliary_stm_troubles, generic_trouble,
}
use Prim.Native.String.{String}

unfoldable pub key : TroubleType → Option String
key main_board_ac_loss = some "main_board_ac_loss"
key main_board_battery_low = some "main_board_battery_low"
key main_board_battery_missing = some "main_board_battery_missing"
key (main_board_out_overload n) = some "main_board_out_overload"
key main_board_kpd_power_overload = some "main_board_kpd_power_overload"
key main_board_ex_power_overload = some "main_board_ex_power_overload"
key main_board_data_bus_dt1 = some "main_board_data_bus_dt1"
key main_board_data_bus_dt2 = some "main_board_data_bus_dt2"
key main_board_data_bus_dtm = some "main_board_data_bus_dtm"
key rtc_loss = some "rtc_loss"
key no_dtr_signal = some "no_dtr_signal"
key external_modem_init_trouble = some "external_modem_init_trouble"
key external_modem_cmd_trouble = some "external_modem_cmd_trouble"
key telephone_line_no_voltage = some "telephone_line_no_voltage"
key telephone_line_bad_signal = some "telephone_line_bad_signal"
key telephone_line_no_signal = some "telephone_line_no_signal"
key monitoring_station1_trouble = some "monitoring_station1_trouble"
key monitoring_station2_trouble = some "monitoring_station2_trouble"
key eeprom_rtc_trouble = some "eeprom_rtc_trouble"
key ram_memory_error = some "ram_memory_error"
key main_panel_restart_memory = some "main_panel_restart"
key (technical_zone_trouble n) = some "technical_zone_trouble"
key (expander_ac_loss n) = some "expander_ac_loss"
key (expander_battery_low n) = some "expander_battery_low"
key (expander_battery_missing n) = some "expander_battery_missing"
key (expander_supply_overload n) = some "expander_supply_overload"
key (expander_no_comm n) = some "expander_no_comm"
key (expander_substituted n) = some "expander_substituted"
key (expander_tamper n) = some "expander_tamper"
key (expander_card_reader_head_a n) = some "expander_card_reader_head_a"
key (expander_card_reader_head_b n) = some "expander_card_reader_head_b"
key (expander_acu_jammed_or_short_circuit n) = some "expander_acu_jammed_or_short_circuit"
key (keypad_no_comm n) = some "keypad_no_comm"
key (keypad_substituted n) = some "keypad_substituted"
key (keypad_tamper n) = some "keypad_tamper"
key (keypad_init_error n) = some "keypad_init_error"
key (ethm_no_lan_cable n) = some "ethm_no_lan_cable"
key (ethm_ping_trouble n) = some "ethm_ping_trouble"
key (ethm_server_id_error n) = some "ethm_server_id_error"
key (ethm_satel_server_connection_error n) = some "ethm_satel_server_connection_error"
key ethm_monitoring_station1_error = some "ethm_monitoring_station1_error"
key ethm_monitoring_station2_error = some "ethm_monitoring_station2_error"
key gprs_monitoring_station1_error = some "gprs_monitoring_station1_error"
key gprs_monitoring_station2_error = some "gprs_monitoring_station2_error"
key ip_monitoring_station1_trouble = some "ip_monitoring_station1_trouble"
key ip_monitoring_station2_trouble = some "ip_monitoring_station2_trouble"
key time_server_trouble = some "time_server_trouble"
key gsm_init_error = some "gsm_init_error"
key (gsm_jamming n) = some "gsm_jamming"
key (gsm_sim_pin_error m n) = some "gsm_sim_pin_error"
key (gsm_sim_logging_error m n) = some "gsm_sim_logging_error"
key (gsm_sim_credit_low m n) = some "gsm_sim_credit_low"
key (gsm_sim_sms_error m n) = some "gsm_sim_sms_error"
key (gsm_settings_crc_error n) = some "gsm_settings_crc_error"
key (gsm_module_missing n) = some "gsm_module_missing"
key (gsm_module_changed n) = some "gsm_module_changed"
key (gsm_server_conn_error n) = some "gsm_server_conn_error"
key (gsm_mail_server_conn_error n) = some "gsm_mail_server_conn_error"
key (gsm_ntp_server_conn_error n) = some "gsm_ntp_server_conn_error"
key (wireless_device_low_battery n) = some "wireless_device_low_battery"
key (wireless_device_no_comm n) = some "wireless_device_no_comm"
key (wireless_output_no_comm n) = some "wireless_output_no_comm"
key (master_key_fob_low_battery n) = some "master_key_fob_low_battery"
key (user_key_fob_low_battery n) = some "user_key_fob_low_battery"
key (gsm_ethm_station1_error n) = some "gsm_ethm_station_1_error"
key (gsm_ethm_station2_error n) = some "gsm_ethm_station_2_error"
key (gsm_gprs_sim1_station1_error n) = some "gsm_gprs_sim1_station_1_error"
key (gsm_gprs_sim1_station2_error n) = some "gsm_gprs_sim1_station_2_error"
key (gsm_gprs_sim2_station1_error n) = some "gsm_gprs_sim2_station_1_error"
key (gsm_gprs_sim2_station2_error n) = some "gsm_gprs_sim2_station_2_error"
key (gsm_sms_sim1_station1_error n) = some "gsm_sms_sim1_station_1_error"
key (gsm_sms_sim1_station2_error n) = some "gsm_sms_sim1_station_2_error"
key (gsm_sms_sim2_station1_error n) = some "gsm_sms_sim2_station_1_error"
key (gsm_sms_sim2_station2_error n) = some "gsm_sms_sim2_station_2_error"
key (zone_long_violation_trouble n) = some "zone_long_violation_trouble"
key (zone_no_violation_trouble n) = some "zone_no_violation_trouble"
key (zone_tamper_trouble n) = some "zone_tamper_trouble"
key (expander_restart n) = some "expander_restart"
key (keypad_restart n) = some "keypad_restart"
key auxiliary_stm_troubles = some "auxiliary_stm_troubles"
key (generic_trouble m n) = none
