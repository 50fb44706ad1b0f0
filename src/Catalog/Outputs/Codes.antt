-- ===== src/Catalog/Outputs/Codes.antt =====
-- src/output_catalog.rs: the function that each code of the panel stands for.
use satel_integra.Common.{ℕ, ◌+◌, ◌-◌, ◌==◌, leb, ◌&&◌, if◌then◌else◌}
use satel_integra.Catalog.Outputs.Types.{
  OutputFunction, unused, burglary_alarm, fire_and_burglary_alarm, fire_alarm, keypad_alarm,
  keypad_fire_alarm, keypad_panic_alarm, keypad_medical_alarm, tamper_alarm, alarm_day,
  duress_alarm, chime, silent_alarm, technical_alarm, zone_violation, video_disarmed, video_armed,
  ready_indicator, bypasses_indicator, exit_delay_indicator, entry_delay_indicator, armed_indicator,
  all_armed_indicator, arm_disarm_confirmation, mono_switch, bi_switch, timer, trouble_indicator,
  main_board_ac_trouble, zones_ac_trouble, expanders_ac_trouble, main_board_battery_trouble,
  zones_battery_trouble, expander_battery_trouble, zone_trouble, dialer_active, ground_start,
  monitoring_confirmation, service_mode_indicator, vibration_sensors_test,
  cash_machine_bypass_indicator, power_supply, power_supply_armed, resettable_power_supply,
  fire_detectors_power_supply, partition_blocked_indicator, outputs_logic_and, outputs_logic_or,
  synthesizer, telephone_relay_numbered, no_guard_round, long_main_board_ac_trouble,
  long_expanders_ac_trouble, outputs_signaling_end, code_entered_signaling, code_used_signaling,
  door_open_indicator, door_long_open_indicator, burglary_alarm_no_tamper_no_fire,
  events_memory50_percent, events_memory90_percent, auto_arm_delay_signaling,
  auto_arm_delay_indicator, unauthorized_door_opening, unauthorized_door_opening_alarm,
  ip_monitoring_trouble, telephone_line_trouble, synthesizer_selectable, telephone_relay, card_read,
  card_hold, card_read_in_module, wireless_zone_no_comm, wireless_output_no_comm,
  wireless_device_battery_trouble, roller_blind_up, roller_blind_down, expander_card_head_a,
  expander_card_head_b, zones_logic_and, unverified_alarm, verified_alarm,
  verification_without_alarm, verification_bypass_indicator, zone_test_indicator,
  arm_mode_indicator, internal_siren, tamper_indicator, key_fobs_battery_trouble,
  wireless_jamming_trouble, thermostat, zone_masking_signaling, zone_masking_indicator, module_lock,
  unknown,
}

unfoldable pub from_code : ℕ → OutputFunction
from_code code =
    if code == 0
    then unused
    else if code == 1
    then burglary_alarm
    else if code == 2
    then fire_and_burglary_alarm
    else if code == 3
    then fire_alarm
    else if code == 4
    then keypad_alarm
    else if code == 5
    then keypad_fire_alarm
    else if code == 6
    then keypad_panic_alarm
    else if code == 7
    then keypad_medical_alarm
    else if code == 8
    then tamper_alarm
    else if code == 9
    then alarm_day
    else if code == 10
    then duress_alarm
    else if code == 11
    then chime
    else if code == 12
    then silent_alarm
    else if code == 13
    then technical_alarm
    else if code == 14
    then zone_violation
    else if code == 15
    then video_disarmed
    else if code == 16
    then video_armed
    else if code == 17
    then ready_indicator
    else if code == 18
    then bypasses_indicator
    else if code == 19
    then exit_delay_indicator
    else if code == 20
    then entry_delay_indicator
    else if code == 21
    then armed_indicator
    else if code == 22
    then all_armed_indicator
    else if code == 23
    then arm_disarm_confirmation
    else if code == 24
    then mono_switch
    else if code == 25
    then bi_switch
    else if code == 26
    then timer
    else if code == 27
    then trouble_indicator
    else if code == 28
    then main_board_ac_trouble
    else if code == 29
    then zones_ac_trouble
    else if code == 30
    then expanders_ac_trouble
    else if code == 31
    then main_board_battery_trouble
    else if code == 32
    then zones_battery_trouble
    else if code == 33
    then expander_battery_trouble
    else if code == 34
    then zone_trouble
    else if code == 35
    then dialer_active
    else if code == 36
    then ground_start
    else if code == 37
    then monitoring_confirmation
    else if code == 38
    then service_mode_indicator
    else if code == 39
    then vibration_sensors_test
    else if code == 40
    then cash_machine_bypass_indicator
    else if code == 41
    then power_supply
    else if code == 42
    then power_supply_armed
    else if code == 43
    then resettable_power_supply
    else if code == 44
    then fire_detectors_power_supply
    else if code == 45
    then partition_blocked_indicator
    else if code == 46
    then outputs_logic_and
    else if code == 47
    then outputs_logic_or
    else if leb 48 code && leb code 63
    then synthesizer (code - 48)
    else if leb 64 code && leb code 79
    then telephone_relay_numbered (code - 64 + 1)
    else if code == 80
    then no_guard_round
    else if code == 81
    then long_main_board_ac_trouble
    else if code == 82
    then long_expanders_ac_trouble
    else if code == 83
    then outputs_signaling_end
    else if code == 84
    then code_entered_signaling
    else if code == 85
    then code_used_signaling
    else if code == 86
    then door_open_indicator
    else if code == 87
    then door_long_open_indicator
    else if code == 88
    then burglary_alarm_no_tamper_no_fire
    else if code == 89
    then events_memory50_percent
    else if code == 90
    then events_memory90_percent
    else if code == 91
    then auto_arm_delay_signaling
    else if code == 92
    then auto_arm_delay_indicator
    else if code == 93
    then unauthorized_door_opening
    else if code == 94
    then unauthorized_door_opening_alarm
    else if code == 95
    then ip_monitoring_trouble
    else if code == 96
    then telephone_line_trouble
    else if code == 97
    then synthesizer_selectable
    else if code == 98
    then telephone_relay
    else if code == 99
    then card_read
    else if code == 100
    then card_hold
    else if code == 101
    then card_read_in_module
    else if code == 102
    then wireless_zone_no_comm
    else if code == 103
    then wireless_output_no_comm
    else if code == 104
    then wireless_device_battery_trouble
    else if code == 105
    then roller_blind_up
    else if code == 106
    then roller_blind_down
    else if code == 107
    then expander_card_head_a
    else if code == 108
    then expander_card_head_b
    else if code == 109
    then zones_logic_and
    else if code == 110
    then unverified_alarm
    else if code == 111
    then verified_alarm
    else if code == 112
    then verification_without_alarm
    else if code == 113
    then verification_bypass_indicator
    else if code == 114
    then zone_test_indicator
    else if code == 115
    then arm_mode_indicator
    else if code == 116
    then internal_siren
    else if code == 117
    then tamper_indicator
    else if code == 118
    then key_fobs_battery_trouble
    else if code == 119
    then wireless_jamming_trouble
    else if code == 120
    then thermostat
    else if code == 121
    then zone_masking_signaling
    else if code == 122
    then zone_masking_indicator
    else if code == 123
    then module_lock
    else unknown code
