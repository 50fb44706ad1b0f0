-- ===== src/Catalog/Outputs/Bytes.antt =====
-- src/output_catalog.rs: the code of each function.
use satel_integra.Common.{ℕ, ◌+◌, ◌-◌, min}
use satel_integra.Catalog.Numbers.{clamp}
use satel_integra.Catalog.Outputs.Types.{
  OutputFunction, unused, burglary_alarm, fire_and_burglary_alarm, fire_alarm, keypad_alarm,
  keypad_fire_alarm, keypad_panic_alarm, keypad_medical_alarm, tamper_alarm, alarm_day,
  duress_alarm, chime, silent_alarm, technical_alarm, zone_violation, video_disarmed, video_armed,
  ready_indicator, bypasses_indicator, exit_delay_indicator, entry_delay_indicator, armed_indicator,
  all_armed_indicator, arm_disarm_confirmation, mono_switch, bi_switch, timer, trouble_indicator,
  main_board_ac_trouble, zones_ac_trouble, expanders_ac_trouble, main_board_battery_trouble,
  zones_battery_trouble, expander_battery_trouble, zone_trouble, dialer_active, ground_start,
  monitoring_confirmation, service_mode_indicator, vibration_sensors_test,
  cash_machine_bypass_indicator, power_supply, power_supply_armed, resettable_power_supply,
  fire_detectors_power_supply, partition_blocked_indicator, outputs_logic_and, outputs_logic_or,
  synthesizer, telephone_relay_numbered, no_guard_round, long_main_board_ac_trouble,
  long_expanders_ac_trouble, outputs_signaling_end, code_entered_signaling, code_used_signaling,
  door_open_indicator, door_long_open_indicator, burglary_alarm_no_tamper_no_fire,
  events_memory50_percent, events_memory90_percent, auto_arm_delay_signaling,
  auto_arm_delay_indicator, unauthorized_door_opening, unauthorized_door_opening_alarm,
  ip_monitoring_trouble, telephone_line_trouble, synthesizer_selectable, telephone_relay, card_read,
  card_hold, card_read_in_module, wireless_zone_no_comm, wireless_output_no_comm,
  wireless_device_battery_trouble, roller_blind_up, roller_blind_down, expander_card_head_a,
  expander_card_head_b, zones_logic_and, unverified_alarm, verified_alarm,
  verification_without_alarm, verification_bypass_indicator, zone_test_indicator,
  arm_mode_indicator, internal_siren, tamper_indicator, key_fobs_battery_trouble,
  wireless_jamming_trouble, thermostat, zone_masking_signaling, zone_masking_indicator, module_lock,
  unknown,
}

unfoldable pub code : OutputFunction → ℕ
code unused = 0
code burglary_alarm = 1
code fire_and_burglary_alarm = 2
code fire_alarm = 3
code keypad_alarm = 4
code keypad_fire_alarm = 5
code keypad_panic_alarm = 6
code keypad_medical_alarm = 7
code tamper_alarm = 8
code alarm_day = 9
code duress_alarm = 10
code chime = 11
code silent_alarm = 12
code technical_alarm = 13
code zone_violation = 14
code video_disarmed = 15
code video_armed = 16
code ready_indicator = 17
code bypasses_indicator = 18
code exit_delay_indicator = 19
code entry_delay_indicator = 20
code armed_indicator = 21
code all_armed_indicator = 22
code arm_disarm_confirmation = 23
code mono_switch = 24
code bi_switch = 25
code timer = 26
code trouble_indicator = 27
code main_board_ac_trouble = 28
code zones_ac_trouble = 29
code expanders_ac_trouble = 30
code main_board_battery_trouble = 31
code zones_battery_trouble = 32
code expander_battery_trouble = 33
code zone_trouble = 34
code dialer_active = 35
code ground_start = 36
code monitoring_confirmation = 37
code service_mode_indicator = 38
code vibration_sensors_test = 39
code cash_machine_bypass_indicator = 40
code power_supply = 41
code power_supply_armed = 42
code resettable_power_supply = 43
code fire_detectors_power_supply = 44
code partition_blocked_indicator = 45
code outputs_logic_and = 46
code outputs_logic_or = 47
code (synthesizer n) = 48 + min n 15
code (telephone_relay_numbered n) = 64 + (clamp 1 16 n - 1)
code no_guard_round = 80
code long_main_board_ac_trouble = 81
code long_expanders_ac_trouble = 82
code outputs_signaling_end = 83
code code_entered_signaling = 84
code code_used_signaling = 85
code door_open_indicator = 86
code door_long_open_indicator = 87
code burglary_alarm_no_tamper_no_fire = 88
code events_memory50_percent = 89
code events_memory90_percent = 90
code auto_arm_delay_signaling = 91
code auto_arm_delay_indicator = 92
code unauthorized_door_opening = 93
code unauthorized_door_opening_alarm = 94
code ip_monitoring_trouble = 95
code telephone_line_trouble = 96
code synthesizer_selectable = 97
code telephone_relay = 98
code card_read = 99
code card_hold = 100
code card_read_in_module = 101
code wireless_zone_no_comm = 102
code wireless_output_no_comm = 103
code wireless_device_battery_trouble = 104
code roller_blind_up = 105
code roller_blind_down = 106
code expander_card_head_a = 107
code expander_card_head_b = 108
code zones_logic_and = 109
code unverified_alarm = 110
code verified_alarm = 111
code verification_without_alarm = 112
code verification_bypass_indicator = 113
code zone_test_indicator = 114
code arm_mode_indicator = 115
code internal_siren = 116
code tamper_indicator = 117
code key_fobs_battery_trouble = 118
code wireless_jamming_trouble = 119
code thermostat = 120
code zone_masking_signaling = 121
code zone_masking_indicator = 122
code module_lock = 123
code (unknown n) = n
