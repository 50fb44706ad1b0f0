-- ===== src/Catalog/Outputs/Entries.antt =====
-- src/output_catalog.rs: the table of the functions, and what is looked up in it by a function's code.
use satel_integra.Common.{ℕ, Option, List, [], ◌∷◌, get_elem?}
use satel_integra.Catalog.Outputs.Types.{OutputFunction}
use satel_integra.Catalog.Outputs.Bytes.{code}
use Prim.Native.String.{String}
use mathlib.Core.Option
use mathlib.Core.Option.{get_or}

pub record OutputFunctionDescriptor : Type 0 where
  pub code : ℕ
  pub key : String
  pub label_en : String

-- `out_desc!`
abbrev out_desc : ℕ → String → String → OutputFunctionDescriptor
out_desc code key label = record { code = code; key = key; label_en = label }

unfoldable pub catalog : List OutputFunctionDescriptor
catalog =
    out_desc 0 "unused" "Unused"
    ∷ out_desc 1 "burglary_alarm" "Burglary Alarm"
    ∷ out_desc 2 "fire_and_burglary_alarm" "Fire and Burglary Alarm"
    ∷ out_desc 3 "fire_alarm" "Fire Alarm"
    ∷ out_desc 4 "keypad_alarm" "Keypad Alarm"
    ∷ out_desc 5 "keypad_fire_alarm" "Keypad Fire Alarm"
    ∷ out_desc 6 "keypad_panic_alarm" "Keypad Panic Alarm"
    ∷ out_desc 7 "keypad_medical_alarm" "Keypad Medical Alarm"
    ∷ out_desc 8 "tamper_alarm" "Tamper Alarm"
    ∷ out_desc 9 "alarm_day" "Day Alarm"
    ∷ out_desc 10 "duress_alarm" "Duress Alarm"
    ∷ out_desc 11 "chime" "Chime"
    ∷ out_desc 12 "silent_alarm" "Silent Alarm"
    ∷ out_desc 13 "technical_alarm" "Technical Alarm"
    ∷ out_desc 14 "zone_violation" "Zone Violation"
    ∷ out_desc 15 "video_disarmed" "Video Disarmed"
    ∷ out_desc 16 "video_armed" "Video Armed"
    ∷ out_desc 17 "ready_indicator" "Ready Indicator"
    ∷ out_desc 18 "bypasses_indicator" "Bypasses Indicator"
    ∷ out_desc 19 "exit_delay_indicator" "Exit Delay Indicator"
    ∷ out_desc 20 "entry_delay_indicator" "Entry Delay Indicator"
    ∷ out_desc 21 "armed_indicator" "Armed Indicator"
    ∷ out_desc 22 "all_armed_indicator" "All Armed Indicator"
    ∷ out_desc 23 "arm_disarm_confirmation" "Arm/Disarm Confirmation"
    ∷ out_desc 24 "mono_switch" "Mono Switch"
    ∷ out_desc 25 "bi_switch" "Bi Switch"
    ∷ out_desc 26 "timer" "Timer"
    ∷ out_desc 27 "trouble_indicator" "Trouble Indicator"
    ∷ out_desc 28 "main_board_ac_trouble" "Main Board AC Trouble"
    ∷ out_desc 29 "zones_ac_trouble" "Zones AC Trouble"
    ∷ out_desc 30 "expanders_ac_trouble" "Expanders AC Trouble"
    ∷ out_desc 31 "main_board_battery_trouble" "Main Board Battery Trouble"
    ∷ out_desc 32 "zones_battery_trouble" "Zones Battery Trouble"
    ∷ out_desc 33 "expander_battery_trouble" "Expander Battery Trouble"
    ∷ out_desc 34 "zone_trouble" "Zone Trouble"
    ∷ out_desc 35 "dialer_active" "Dialer Active"
    ∷ out_desc 36 "ground_start" "Ground Start"
    ∷ out_desc 37 "monitoring_confirmation" "Monitoring Confirmation"
    ∷ out_desc 38 "service_mode_indicator" "Service Mode Indicator"
    ∷ out_desc 39 "vibration_sensors_test" "Vibration Sensors Test"
    ∷ out_desc 40 "cash_machine_bypass_indicator" "Cash Machine Bypass Indicator"
    ∷ out_desc 41 "power_supply" "Power Supply"
    ∷ out_desc 42 "power_supply_armed" "Power Supply in Armed State"
    ∷ out_desc 43 "resettable_power_supply" "Resettable Power Supply"
    ∷ out_desc 44 "fire_detectors_power_supply" "Fire Detectors Power Supply"
    ∷ out_desc 45 "partition_blocked_indicator" "Partition Blocked Indicator"
    ∷ out_desc 46 "outputs_logic_and" "Outputs Logic AND"
    ∷ out_desc 47 "outputs_logic_or" "Outputs Logic OR"
    ∷ out_desc 48 "synthesizer_0" "Voice Synthesizer 0"
    ∷ out_desc 49 "synthesizer_1" "Voice Synthesizer 1"
    ∷ out_desc 50 "synthesizer_2" "Voice Synthesizer 2"
    ∷ out_desc 51 "synthesizer_3" "Voice Synthesizer 3"
    ∷ out_desc 52 "synthesizer_4" "Voice Synthesizer 4"
    ∷ out_desc 53 "synthesizer_5" "Voice Synthesizer 5"
    ∷ out_desc 54 "synthesizer_6" "Voice Synthesizer 6"
    ∷ out_desc 55 "synthesizer_7" "Voice Synthesizer 7"
    ∷ out_desc 56 "synthesizer_8" "Voice Synthesizer 8"
    ∷ out_desc 57 "synthesizer_9" "Voice Synthesizer 9"
    ∷ out_desc 58 "synthesizer_10" "Voice Synthesizer 10"
    ∷ out_desc 59 "synthesizer_11" "Voice Synthesizer 11"
    ∷ out_desc 60 "synthesizer_12" "Voice Synthesizer 12"
    ∷ out_desc 61 "synthesizer_13" "Voice Synthesizer 13"
    ∷ out_desc 62 "synthesizer_14" "Voice Synthesizer 14"
    ∷ out_desc 63 "synthesizer_15" "Voice Synthesizer 15"
    ∷ out_desc 64 "telephone_relay_1" "Telephone Relay 1"
    ∷ out_desc 65 "telephone_relay_2" "Telephone Relay 2"
    ∷ out_desc 66 "telephone_relay_3" "Telephone Relay 3"
    ∷ out_desc 67 "telephone_relay_4" "Telephone Relay 4"
    ∷ out_desc 68 "telephone_relay_5" "Telephone Relay 5"
    ∷ out_desc 69 "telephone_relay_6" "Telephone Relay 6"
    ∷ out_desc 70 "telephone_relay_7" "Telephone Relay 7"
    ∷ out_desc 71 "telephone_relay_8" "Telephone Relay 8"
    ∷ out_desc 72 "telephone_relay_9" "Telephone Relay 9"
    ∷ out_desc 73 "telephone_relay_10" "Telephone Relay 10"
    ∷ out_desc 74 "telephone_relay_11" "Telephone Relay 11"
    ∷ out_desc 75 "telephone_relay_12" "Telephone Relay 12"
    ∷ out_desc 76 "telephone_relay_13" "Telephone Relay 13"
    ∷ out_desc 77 "telephone_relay_14" "Telephone Relay 14"
    ∷ out_desc 78 "telephone_relay_15" "Telephone Relay 15"
    ∷ out_desc 79 "telephone_relay_16" "Telephone Relay 16"
    ∷ out_desc 80 "no_guard_round" "No Guard Round"
    ∷ out_desc 81 "long_main_board_ac_trouble" "Long Main Board AC Trouble"
    ∷ out_desc 82 "long_expanders_ac_trouble" "Long Expanders AC Trouble"
    ∷ out_desc 83 "outputs_signaling_end" "Outputs Signaling End"
    ∷ out_desc 84 "code_entered_signaling" "Code Entered Signaling"
    ∷ out_desc 85 "code_used_signaling" "Code Used Signaling"
    ∷ out_desc 86 "door_open_indicator" "Door Open Indicator"
    ∷ out_desc 87 "door_long_open_indicator" "Door Long Open Indicator"
    ∷ out_desc 88 "burglary_alarm_no_tamper_no_fire" "Burglary Alarm (No Tamper, No Fire)"
    ∷ out_desc 89 "events_memory_50_percent" "50% Event Log Full"
    ∷ out_desc 90 "events_memory_90_percent" "90% Event Log Full"
    ∷ out_desc 91 "auto_arm_delay_signaling" "Auto-Arm Delay Signaling"
    ∷ out_desc 92 "auto_arm_delay_indicator" "Auto-Arm Delay Indicator"
    ∷ out_desc 93 "unauthorized_door_opening" "Unauthorized Door Opening"
    ∷ out_desc 94 "unauthorized_door_opening_alarm" "Unauthorized Door Opening Alarm"
    ∷ out_desc 95 "ip_monitoring_trouble" "IP Monitoring Trouble"
    ∷ out_desc 96 "telephone_line_trouble" "Telephone Line Trouble"
    ∷ out_desc 97 "synthesizer" "Voice Synthesizer"
    ∷ out_desc 98 "telephone_relay" "Telephone Relay"
    ∷ out_desc 99 "card_read" "Card Read"
    ∷ out_desc 100 "card_hold" "Card Hold"
    ∷ out_desc 101 "card_read_in_module" "Card Read in Module"
    ∷ out_desc 102 "wireless_zone_no_comm" "Wireless Zone No Comm"
    ∷ out_desc 103 "wireless_output_no_comm" "Wireless Output No Comm"
    ∷ out_desc 104 "wireless_device_battery_trouble" "Wireless Device Low Battery"
    ∷ out_desc 105 "roller_blind_up" "Roller Blind Up"
    ∷ out_desc 106 "roller_blind_down" "Roller Blind Down"
    ∷ out_desc 107 "expander_card_head_a" "Card on Expander Head A"
    ∷ out_desc 108 "expander_card_head_b" "Card on Expander Head B"
    ∷ out_desc 109 "zones_logic_and" "Zones Logic AND"
    ∷ out_desc 110 "unverified_alarm" "Unverified Alarm"
    ∷ out_desc 111 "verified_alarm" "Verified Alarm"
    ∷ out_desc 112 "verification_without_alarm" "Verification Without Alarm"
    ∷ out_desc 113 "verification_bypass_indicator" "Verification Bypass Indicator"
    ∷ out_desc 114 "zone_test_indicator" "Zone Test Indicator"
    ∷ out_desc 115 "arm_mode_indicator" "Arm Mode Indicator"
    ∷ out_desc 116 "internal_siren" "Internal Siren"
    ∷ out_desc 117 "tamper_indicator" "Tamper Indicator"
    ∷ out_desc 118 "key_fobs_battery_trouble" "Key Fobs Low Battery"
    ∷ out_desc 119 "wireless_jamming_trouble" "Wireless Module Jamming"
    ∷ out_desc 120 "thermostat" "Thermostat"
    ∷ out_desc 121 "zone_masking_signaling" "Zone Masking Signaling"
    ∷ out_desc 122 "zone_masking_indicator" "Zone Masking Indicator"
    ∷ out_desc 123 "module_lock" "Module Lock"
    ∷ []

unfoldable pub entry_of : OutputFunction → Option OutputFunctionDescriptor
unfolding catalog
entry_of function = get_elem? catalog (code function)

unfoldable pub key : OutputFunction → String
key function = get_or (Option.map (λ entry. entry.key) (entry_of function)) "unknown"

unfoldable pub label_en : OutputFunction → String
label_en function = get_or (Option.map (λ entry. entry.label_en) (entry_of function)) "Unknown"
