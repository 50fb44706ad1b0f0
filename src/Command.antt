-- ===== src/Command.antt =====
-- src/command.rs: the protocol's command codes and the panel's result codes.
pub mod Bytes
mod Runs
use satel_integra.Common.{ℕ, Option, none, some, ◌==◌, ◌||◌, if◌then◌else◌}

pub data SatelCommand : Type 0 where
  zones_violation zones_tamper zones_alarm zones_tamper_alarm zones_alarm_memory : SatelCommand
  zones_tamper_alarm_memory zones_bypass zones_no_violation_trouble : SatelCommand
  zones_long_violation_trouble armed_partitions_suppressed armed_partitions_really : SatelCommand
  partitions_armed_mode2 partitions_armed_mode3 partitions_with1st_code_entered : SatelCommand
  partitions_entry_time partitions_exit_time_more10s partitions_exit_time_less10s : SatelCommand
  partitions_temporary_blocked partitions_blocked_for_guard_round partitions_alarm : SatelCommand
  partitions_fire_alarm partitions_alarm_memory partitions_fire_alarm_memory outputs_state :
      SatelCommand
  doors_opened doors_opened_long rtc_and_basic_status_bits troubles_part1 troubles_part2 :
      SatelCommand
  troubles_part3 troubles_part4 troubles_part5 troubles_memory_part1 troubles_memory_part2 :
      SatelCommand
  troubles_memory_part3 troubles_memory_part4 troubles_memory_part5 : SatelCommand
  partitions_with_violated_zones zones_isolate partitions_with_verified_alarms zones_masked :
      SatelCommand
  zones_masked_memory partitions_armed_in_mode1 partitions_with_warning_alarms : SatelCommand
  troubles_part6 troubles_part7 troubles_memory_part6 troubles_memory_part7 troubles_part8 :
      SatelCommand
  troubles_memory_part8 read_output_power module_version read_zone_temperature : SatelCommand
  integra_version list_of_new_data arm_mode0 arm_mode1 arm_mode2 arm_mode3 disarm : SatelCommand
  clear_alarm zones_bypass_cmd zones_unbypass outputs_on outputs_off open_door : SatelCommand
  clear_trouble_memory read_event enter1st_code set_rtc_clock get_event_text : SatelCommand
  zones_isolate_cmd outputs_switch force_arm_mode0 force_arm_mode1 force_arm_mode2 : SatelCommand
  force_arm_mode3 read_self_info read_user read_users_list read_user_locks write_user_locks :
      SatelCommand
  remove_user create_user change_user user_dallas_card_key_fob_mgmt change_user_code : SatelCommand
  change_user_tel_code read_device_name result_code : SatelCommand

unfoldable pub to_byte : SatelCommand → ℕ
to_byte zones_violation = 0x00
to_byte zones_tamper = 0x01
to_byte zones_alarm = 0x02
to_byte zones_tamper_alarm = 0x03
to_byte zones_alarm_memory = 0x04
to_byte zones_tamper_alarm_memory = 0x05
to_byte zones_bypass = 0x06
to_byte zones_no_violation_trouble = 0x07
to_byte zones_long_violation_trouble = 0x08
to_byte armed_partitions_suppressed = 0x09
to_byte armed_partitions_really = 0x0A
to_byte partitions_armed_mode2 = 0x0B
to_byte partitions_armed_mode3 = 0x0C
to_byte partitions_with1st_code_entered = 0x0D
to_byte partitions_entry_time = 0x0E
to_byte partitions_exit_time_more10s = 0x0F
to_byte partitions_exit_time_less10s = 0x10
to_byte partitions_temporary_blocked = 0x11
to_byte partitions_blocked_for_guard_round = 0x12
to_byte partitions_alarm = 0x13
to_byte partitions_fire_alarm = 0x14
to_byte partitions_alarm_memory = 0x15
to_byte partitions_fire_alarm_memory = 0x16
to_byte outputs_state = 0x17
to_byte doors_opened = 0x18
to_byte doors_opened_long = 0x19
to_byte rtc_and_basic_status_bits = 0x1A
to_byte troubles_part1 = 0x1B
to_byte troubles_part2 = 0x1C
to_byte troubles_part3 = 0x1D
to_byte troubles_part4 = 0x1E
to_byte troubles_part5 = 0x1F
to_byte troubles_memory_part1 = 0x20
to_byte troubles_memory_part2 = 0x21
to_byte troubles_memory_part3 = 0x22
to_byte troubles_memory_part4 = 0x23
to_byte troubles_memory_part5 = 0x24
to_byte partitions_with_violated_zones = 0x25
to_byte zones_isolate = 0x26
to_byte partitions_with_verified_alarms = 0x27
to_byte zones_masked = 0x28
to_byte zones_masked_memory = 0x29
to_byte partitions_armed_in_mode1 = 0x2A
to_byte partitions_with_warning_alarms = 0x2B
to_byte troubles_part6 = 0x2C
to_byte troubles_part7 = 0x2D
to_byte troubles_memory_part6 = 0x2E
to_byte troubles_memory_part7 = 0x2F
to_byte troubles_part8 = 0x30
to_byte troubles_memory_part8 = 0x31
to_byte read_output_power = 0x7B
to_byte module_version = 0x7C
to_byte read_zone_temperature = 0x7D
to_byte integra_version = 0x7E
to_byte list_of_new_data = 0x7F
to_byte arm_mode0 = 0x80
to_byte arm_mode1 = 0x81
to_byte arm_mode2 = 0x82
to_byte arm_mode3 = 0x83
to_byte disarm = 0x84
to_byte clear_alarm = 0x85
to_byte zones_bypass_cmd = 0x86
to_byte zones_unbypass = 0x87
to_byte outputs_on = 0x88
to_byte outputs_off = 0x89
to_byte open_door = 0x8A
to_byte clear_trouble_memory = 0x8B
to_byte read_event = 0x8C
to_byte enter1st_code = 0x8D
to_byte set_rtc_clock = 0x8E
to_byte get_event_text = 0x8F
to_byte zones_isolate_cmd = 0x90
to_byte outputs_switch = 0x91
to_byte force_arm_mode0 = 0xA0
to_byte force_arm_mode1 = 0xA1
to_byte force_arm_mode2 = 0xA2
to_byte force_arm_mode3 = 0xA3
to_byte read_self_info = 0xE0
to_byte read_user = 0xE1
to_byte read_users_list = 0xE2
to_byte read_user_locks = 0xE3
to_byte write_user_locks = 0xE4
to_byte remove_user = 0xE5
to_byte create_user = 0xE6
to_byte change_user = 0xE7
to_byte user_dallas_card_key_fob_mgmt = 0xE8
to_byte change_user_code = 0xE9
to_byte change_user_tel_code = 0xEA
to_byte read_device_name = 0xEE
to_byte result_code = 0xEF

pub from_byte : ℕ → Option SatelCommand
from_byte b =
    if b == 0x00
    then some zones_violation
    else if b == 0x01
    then some zones_tamper
    else if b == 0x02
    then some zones_alarm
    else if b == 0x03
    then some zones_tamper_alarm
    else if b == 0x04
    then some zones_alarm_memory
    else if b == 0x05
    then some zones_tamper_alarm_memory
    else if b == 0x06
    then some zones_bypass
    else if b == 0x07
    then some zones_no_violation_trouble
    else if b == 0x08
    then some zones_long_violation_trouble
    else if b == 0x09
    then some armed_partitions_suppressed
    else if b == 0x0A
    then some armed_partitions_really
    else if b == 0x0B
    then some partitions_armed_mode2
    else if b == 0x0C
    then some partitions_armed_mode3
    else if b == 0x0D
    then some partitions_with1st_code_entered
    else if b == 0x0E
    then some partitions_entry_time
    else if b == 0x0F
    then some partitions_exit_time_more10s
    else if b == 0x10
    then some partitions_exit_time_less10s
    else if b == 0x11
    then some partitions_temporary_blocked
    else if b == 0x12
    then some partitions_blocked_for_guard_round
    else if b == 0x13
    then some partitions_alarm
    else if b == 0x14
    then some partitions_fire_alarm
    else if b == 0x15
    then some partitions_alarm_memory
    else if b == 0x16
    then some partitions_fire_alarm_memory
    else if b == 0x17
    then some outputs_state
    else if b == 0x18
    then some doors_opened
    else if b == 0x19
    then some doors_opened_long
    else if b == 0x1A
    then some rtc_and_basic_status_bits
    else if b == 0x1B
    then some troubles_part1
    else if b == 0x1C
    then some troubles_part2
    else if b == 0x1D
    then some troubles_part3
    else if b == 0x1E
    then some troubles_part4
    else if b == 0x1F
    then some troubles_part5
    else if b == 0x20
    then some troubles_memory_part1
    else if b == 0x21
    then some troubles_memory_part2
    else if b == 0x22
    then some troubles_memory_part3
    else if b == 0x23
    then some troubles_memory_part4
    else if b == 0x24
    then some troubles_memory_part5
    else if b == 0x25
    then some partitions_with_violated_zones
    else if b == 0x26
    then some zones_isolate
    else if b == 0x27
    then some partitions_with_verified_alarms
    else if b == 0x28
    then some zones_masked
    else if b == 0x29
    then some zones_masked_memory
    else if b == 0x2A
    then some partitions_armed_in_mode1
    else if b == 0x2B
    then some partitions_with_warning_alarms
    else if b == 0x2C
    then some troubles_part6
    else if b == 0x2D
    then some troubles_part7
    else if b == 0x2E
    then some troubles_memory_part6
    else if b == 0x2F
    then some troubles_memory_part7
    else if b == 0x30
    then some troubles_part8
    else if b == 0x31
    then some troubles_memory_part8
    else if b == 0x7B
    then some read_output_power
    else if b == 0x7C
    then some module_version
    else if b == 0x7D
    then some read_zone_temperature
    else if b == 0x7E
    then some integra_version
    else if b == 0x7F
    then some list_of_new_data
    else if b == 0x80
    then some arm_mode0
    else if b == 0x81
    then some arm_mode1
    else if b == 0x82
    then some arm_mode2
    else if b == 0x83
    then some arm_mode3
    else if b == 0x84
    then some disarm
    else if b == 0x85
    then some clear_alarm
    else if b == 0x86
    then some zones_bypass_cmd
    else if b == 0x87
    then some zones_unbypass
    else if b == 0x88
    then some outputs_on
    else if b == 0x89
    then some outputs_off
    else if b == 0x8A
    then some open_door
    else if b == 0x8B
    then some clear_trouble_memory
    else if b == 0x8C
    then some read_event
    else if b == 0x8D
    then some enter1st_code
    else if b == 0x8E
    then some set_rtc_clock
    else if b == 0x8F
    then some get_event_text
    else if b == 0x90
    then some zones_isolate_cmd
    else if b == 0x91
    then some outputs_switch
    else if b == 0xA0
    then some force_arm_mode0
    else if b == 0xA1
    then some force_arm_mode1
    else if b == 0xA2
    then some force_arm_mode2
    else if b == 0xA3
    then some force_arm_mode3
    else if b == 0xE0
    then some read_self_info
    else if b == 0xE1
    then some read_user
    else if b == 0xE2
    then some read_users_list
    else if b == 0xE3
    then some read_user_locks
    else if b == 0xE4
    then some write_user_locks
    else if b == 0xE5
    then some remove_user
    else if b == 0xE6
    then some create_user
    else if b == 0xE7
    then some change_user
    else if b == 0xE8
    then some user_dallas_card_key_fob_mgmt
    else if b == 0xE9
    then some change_user_code
    else if b == 0xEA
    then some change_user_tel_code
    else if b == 0xEE
    then some read_device_name
    else if b == 0xEF
    then some result_code
    else none

-- `SatelResult`, under its own module for its `from_byte`.
pub data SatelResult : Type 0 where
  ok invalid_user_code no_access can_not_arm command_accepted : SatelResult
  other : ℕ → SatelResult

pub result_from_byte : ℕ → SatelResult
result_from_byte b =
    if b == 0x00
    then ok
    else if b == 0x01
    then invalid_user_code
    else if b == 0x02
    then no_access
    else if (b == 0x11) || (b == 0x12)
    then can_not_arm
    else if b == 0xFF
    then command_accepted
    else other b
