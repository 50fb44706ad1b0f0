-- ===== src/Catalog/Troubles/Entries.antt =====
-- src/trouble_catalog.rs: the table of the troubles.
use satel_integra.Common.{ℕ, Bool, true, false, Option, none, some, List, [], ◌∷◌}
use Prim.Native.String.{String}

pub data TroubleDomain : Type 0 where
  zone output : TroubleDomain

pub data TroubleAddressing : Type 0 where
  single : TroubleAddressing
  range : (from to : ℕ) → TroubleAddressing
  pair : (a_from a_to b_from b_to : ℕ) → TroubleAddressing

pub record TroubleDescriptor : Type 0 where
  pub key : String
  pub label_en : String
  pub addressing : TroubleAddressing
  pub domain : Option TroubleDomain
  pub has_memory : Bool
  pub has_state : Bool

-- `desc_custom!`
abbrev desc_custom :
    String → String → TroubleAddressing → Option TroubleDomain → Bool → Bool → TroubleDescriptor
desc_custom key label addr domain state memory = record {
  key = key;
  label_en = label;
  addressing = addr;
  domain = domain;
  has_memory = memory;
  has_state = state;
}

-- `desc!`
abbrev desc : String → String → TroubleAddressing → Option TroubleDomain → TroubleDescriptor
desc key label addr domain = desc_custom key label addr domain true true

unfoldable pub catalog : List TroubleDescriptor
catalog =
    desc "main_board_ac_loss" "Main Board: AC Power Loss (230V)" single none
    ∷ desc "main_board_battery_low" "Main Board: Battery Low Voltage" single none
    ∷ desc "main_board_battery_missing" "Main Board: Battery Missing / Disconnected" single none
    ∷ desc "main_board_out_overload" "Main Board: Supply Output Overload" (range 1 4) none
    ∷ desc "main_board_kpd_power_overload" "Main Board: Keypad Power Supply (+KPD) Overload" single
        none
    ∷ desc "main_board_ex_power_overload" "Main Board: Expander Power Supply (+EX1/+EX2) Overload"
        single none
    ∷ desc "main_board_data_bus_dt1" "Main Board: Data Bus DT1 Communication Error" single none
    ∷ desc "main_board_data_bus_dt2" "Main Board: Data Bus DT2 Communication Error" single none
    ∷ desc "main_board_data_bus_dtm" "Main Board: Data Bus DTM Communication Error" single none
    ∷ desc "rtc_loss" "Main Board: Real-Time Clock (RTC) Loss / Not Set" single none
    ∷ desc "no_dtr_signal" "Main Board: No DTR Signal on RS-232 Port" single none
    ∷ desc "external_modem_init_trouble" "Main Board: External Modem Initialization Error" single
        none
    ∷ desc "external_modem_cmd_trouble" "Main Board: External Modem Command Error" single none
    ∷ desc "telephone_line_no_voltage" "Telephone Line: No Voltage" single none
    ∷ desc "telephone_line_bad_signal" "Telephone Line: Bad Signal" single none
    ∷ desc "telephone_line_no_signal" "Telephone Line: No Dial Tone" single none
    ∷ desc "monitoring_station1_trouble" "Monitoring: Station 1 Transmission Fault" single none
    ∷ desc "monitoring_station2_trouble" "Monitoring: Station 2 Transmission Fault" single none
    ∷ desc "eeprom_rtc_trouble" "Main Board: EEPROM / RTC Access Trouble" single none
    ∷ desc "ram_memory_error" "Main Board: RAM Memory Error" single none
    ∷ desc "main_panel_restart" "Main Board: Panel Restart Latched" single none
    ∷ desc "technical_zone_trouble" "Technical Zone: Trouble Detected" (range 1 256) (some zone)
    ∷ desc "expander_ac_loss" "Expander: AC Power Loss" (range 1 64) none
    ∷ desc "expander_battery_low" "Expander: Battery Low Voltage" (range 1 64) none
    ∷ desc "expander_battery_missing" "Expander: Battery Missing" (range 1 64) none
    ∷ desc "expander_supply_overload" "Expander: Power Supply Overload" (range 1 64) none
    ∷ desc "expander_no_comm" "Expander: No Communication" (range 1 64) none
    ∷ desc "expander_substituted" "Expander: Substituted / Unknown Hardware" (range 1 64) none
    ∷ desc "expander_tamper" "Expander: Tamper / Sabotage" (range 1 64) none
    ∷ desc "expander_card_reader_head_a" "Expander: Card Reader Head A / Synchro Trouble"
        (range 1 64) none
    ∷ desc "expander_card_reader_head_b" "Expander: Card Reader Head B / Charging Trouble"
        (range 1 64) none
    ∷ desc "expander_acu_jammed_or_short_circuit"
        "Expander: Jammed / Addressable Loop Short Circuit" (range 1 30) none
    ∷ desc "keypad_no_comm" "Keypad: No Communication" (range 1 8) none
    ∷ desc "keypad_substituted" "Keypad: Substituted" (range 1 8) none
    ∷ desc "keypad_tamper" "Keypad: Tamper / Sabotage" (range 1 8) none
    ∷ desc "keypad_init_error" "Keypad: Initialization Error" (range 1 8) none
    ∷ desc "ethm_no_lan_cable" "ETHM-1: Ethernet LAN Cable Unplugged" (range 1 8) none
    ∷ desc "gsm_ethm_station_1_error" "INT-GSM/ETHM-1: Station 1 Transmission Error" (range 0 7)
        none
    ∷ desc "gsm_ethm_station_2_error" "INT-GSM/ETHM-1: Station 2 Transmission Error" (range 0 7)
        none
    ∷ desc "gsm_gprs_sim1_station_1_error" "INT-GSM: GPRS SIM 1 Station 1 Error" (range 0 7) none
    ∷ desc "gsm_gprs_sim1_station_2_error" "INT-GSM: GPRS SIM 1 Station 2 Error" (range 0 7) none
    ∷ desc "gsm_gprs_sim2_station_1_error" "INT-GSM: GPRS SIM 2 Station 1 Error" (range 0 7) none
    ∷ desc "gsm_gprs_sim2_station_2_error" "INT-GSM: GPRS SIM 2 Station 2 Error" (range 0 7) none
    ∷ desc "gsm_sms_sim1_station_1_error" "INT-GSM: SMS SIM 1 Station 1 Error" (range 0 7) none
    ∷ desc "gsm_sms_sim1_station_2_error" "INT-GSM: SMS SIM 1 Station 2 Error" (range 0 7) none
    ∷ desc "gsm_sms_sim2_station_1_error" "INT-GSM: SMS SIM 2 Station 1 Error" (range 0 7) none
    ∷ desc "gsm_sms_sim2_station_2_error" "INT-GSM: SMS SIM 2 Station 2 Error" (range 0 7) none
    ∷ desc_custom "zone_long_violation_trouble" "Zone: Long Violation" (range 1 256) (some zone)
        false true
    ∷ desc_custom "zone_no_violation_trouble" "Zone: No Violation" (range 1 256) (some zone) false
        true
    ∷ desc_custom "zone_tamper_trouble" "Zone: Tamper" (range 1 256) (some zone) false true
    ∷ desc_custom "expander_restart" "Expander: Restart" (range 1 64) none false true
    ∷ desc_custom "keypad_restart" "Keypad: Restart" (range 1 8) none false true
    ∷ desc "ethm_ping_trouble" "ETHM-1: Ping Network Test Failed" (range 1 8) none
    ∷ desc "ethm_server_id_error" "ETHM-1: SATEL Server MAC/ID Verification Error" (range 1 8) none
    ∷ desc "ethm_satel_server_connection_error" "ETHM-1: No Connection to SATEL Server" (range 1 8)
        none
    ∷ desc "ethm_monitoring_station1_error" "ETHM-1: Monitoring Station 1 Connection Error" single
        none
    ∷ desc "ethm_monitoring_station2_error" "ETHM-1: Monitoring Station 2 Connection Error" single
        none
    ∷ desc "gprs_monitoring_station1_error" "INT-GSM: GPRS Monitoring Station 1 Error" single none
    ∷ desc "gprs_monitoring_station2_error" "INT-GSM: GPRS Monitoring Station 2 Error" single none
    ∷ desc "ip_monitoring_station1_trouble" "IP Monitoring: Station 1 Communication Trouble" single
        none
    ∷ desc "ip_monitoring_station2_trouble" "IP Monitoring: Station 2 Communication Trouble" single
        none
    ∷ desc "time_server_trouble" "Network: NTP Time Synchronization Server Error" single none
    ∷ desc "gsm_init_error" "INT-GSM: Module Initialization Error" single none
    ∷ desc "gsm_jamming" "INT-GSM: Cellular Jamming Detected" (range 0 7) none
    ∷ desc "gsm_sim_pin_error" "INT-GSM: SIM Wrong PIN" (pair 0 7 1 2) none
    ∷ desc "gsm_sim_logging_error" "INT-GSM: SIM Network Registration Error" (pair 0 7 1 2) none
    ∷ desc "gsm_sim_credit_low" "INT-GSM: SIM Account Credit Low" (pair 0 7 1 2) none
    ∷ desc "gsm_sim_sms_error" "INT-GSM: SIM SMS Sending Error" (pair 0 7 1 2) none
    ∷ desc "gsm_settings_crc_error" "INT-GSM: Settings CRC Checksum Error" (range 0 7) none
    ∷ desc "gsm_module_missing" "INT-GSM: Module Missing" (range 0 7) none
    ∷ desc "gsm_module_changed" "INT-GSM: Module Changed" (range 0 7) none
    ∷ desc "gsm_server_conn_error" "INT-GSM: Server Connection Error" (range 0 7) none
    ∷ desc "gsm_mail_server_conn_error" "INT-GSM: Mail Server Error" (range 0 7) none
    ∷ desc "gsm_ntp_server_conn_error" "INT-GSM: NTP Server Error" (range 0 7) none
    ∷ desc "wireless_device_low_battery" "Wireless Sensor: Low Battery" (range 17 256) (some zone)
    ∷ desc "wireless_device_no_comm" "Wireless Sensor: No Radio Communication" (range 17 256)
        (some zone)
    ∷ desc "wireless_output_no_comm" "Wireless Output: No Radio Communication" (range 17 256)
        (some output)
    ∷ desc_custom "master_key_fob_low_battery" "Master User Key Fob: Low Battery" (range 1 8) none
        true false
    ∷ desc_custom "user_key_fob_low_battery" "User Key Fob: Low Battery" (range 1 240) none true
        false
    ∷ desc "auxiliary_stm_troubles" "Auxiliary Microprocessor (STM) Trouble" single none
    ∷ []
