-- ===== src/Catalog/Zones/Entries.antt =====
-- src/zone_catalog.rs: the table of the reactions, and what is looked up in it by a reaction's code.
use satel_integra.Common.{ℕ, Option, List, [], ◌∷◌, get_elem?}
use satel_integra.Catalog.Zones.Types.{
  ZoneReaction, ZoneKind, burglary, fire, smoke, water, gas, freeze, temperature, panic, medical,
  tamper, technical, control, other,
}
use satel_integra.Catalog.Zones.Bytes.{code}
use Prim.Native.String.{String}
use mathlib.Core.Option
use mathlib.Core.Option.{get_or}

pub record ZoneReactionDescriptor : Type 0 where
  pub code : ℕ
  pub key : String
  pub label_en : String
  pub kind : ZoneKind

-- `zr_desc!`
abbrev zr_desc : ℕ → String → String → ZoneKind → ZoneReactionDescriptor
zr_desc code key label kind = record { code = code; key = key; label_en = label; kind = kind }

unfoldable pub catalog : List ZoneReactionDescriptor
catalog =
    zr_desc 0 "entry_exit" "Entry/Exit" burglary
    ∷ zr_desc 1 "entry" "Entry" burglary
    ∷ zr_desc 2 "delayed_with_signaling" "Delayed with Delay Signaling" burglary
    ∷ zr_desc 3 "interior_delayed" "Interior Delayed" burglary
    ∷ zr_desc 4 "perimeter" "Perimeter" burglary
    ∷ zr_desc 5 "instant" "Instant" burglary
    ∷ zr_desc 6 "exit" "Exit" burglary
    ∷ zr_desc 7 "audible_silent" "Audible/Silent" burglary
    ∷ zr_desc 8 "exterior" "Exterior" burglary
    ∷ zr_desc 9 "tamper_24h" "24h Tamper" tamper
    ∷ zr_desc 10 "vibration_24h" "24h Vibration" burglary
    ∷ zr_desc 11 "cash_machine_24h" "24h Cash Machine" burglary
    ∷ zr_desc 12 "panic_audible" "Audible Panic" panic
    ∷ zr_desc 13 "panic_silent" "Silent Panic" panic
    ∷ zr_desc 14 "medical_button" "Medical - Button" medical
    ∷ zr_desc 15 "medical_remote" "Medical - Remote" medical
    ∷ zr_desc 16 "counting_l1" "Counting L1" burglary
    ∷ zr_desc 17 "counting_l2" "Counting L2" burglary
    ∷ zr_desc 18 "counting_l3" "Counting L3" burglary
    ∷ zr_desc 19 "counting_l4" "Counting L4" burglary
    ∷ zr_desc 20 "counting_l5" "Counting L5" burglary
    ∷ zr_desc 21 "counting_l6" "Counting L6" burglary
    ∷ zr_desc 22 "counting_l7" "Counting L7" burglary
    ∷ zr_desc 23 "counting_l8" "Counting L8" burglary
    ∷ zr_desc 24 "counting_l9" "Counting L9" burglary
    ∷ zr_desc 25 "counting_l10" "Counting L10" burglary
    ∷ zr_desc 26 "counting_l11" "Counting L11" burglary
    ∷ zr_desc 27 "counting_l12" "Counting L12" burglary
    ∷ zr_desc 28 "counting_l13" "Counting L13" burglary
    ∷ zr_desc 29 "counting_l14" "Counting L14" burglary
    ∷ zr_desc 30 "counting_l15" "Counting L15" burglary
    ∷ zr_desc 31 "counting_l16" "Counting L16" burglary
    ∷ zr_desc 32 "fire_24h" "24h Fire" fire
    ∷ zr_desc 33 "fire_smoke_24h" "24h Fire - Smoke Detector" smoke
    ∷ zr_desc 34 "fire_combustion_24h" "24h Fire - Combustion" fire
    ∷ zr_desc 35 "fire_water_sensor_24h" "24h Fire - Water Sensor" fire
    ∷ zr_desc 36 "fire_temperature_24h" "24h Fire - Temperature Sensor" temperature
    ∷ zr_desc 37 "fire_button_24h" "24h Fire - Button" fire
    ∷ zr_desc 38 "fire_duct_24h" "24h Fire - Duct Detector" smoke
    ∷ zr_desc 39 "fire_flame_24h" "24h Fire - Flame Detector" fire
    ∷ zr_desc 40 "fire_circuits_protection_24h" "24h Fire Circuits Protection" fire
    ∷ zr_desc 41 "water_pressure_24h" "24h Water Pressure Sensor" water
    ∷ zr_desc 42 "co2_pressure_24h" "24h CO2 Pressure Sensor" gas
    ∷ zr_desc 43 "valve_sensor_24h" "24h Valve Sensor" technical
    ∷ zr_desc 44 "water_level_24h" "24h Water Level Sensor" water
    ∷ zr_desc 45 "pumps_start_24h" "24h Pumps Start" technical
    ∷ zr_desc 46 "pumps_failure_24h" "24h Pumps Failure" technical
    ∷ zr_desc 47 "no_alarm_action" "No Alarm Action" other
    ∷ zr_desc 48 "auxiliary_general_24h" "24h Auxiliary - General" technical
    ∷ zr_desc 49 "auxiliary_gas_24h" "24h Auxiliary - Gas Sensor" gas
    ∷ zr_desc 50 "auxiliary_freeze_24h" "24h Auxiliary - Freeze" freeze
    ∷ zr_desc 51 "auxiliary_heat_loss_24h" "24h Auxiliary - Heating Loss" freeze
    ∷ zr_desc 52 "auxiliary_water_leak_24h" "24h Auxiliary - Water Leak" water
    ∷ zr_desc 53 "auxiliary_security_non_burglary_24h" "24h Auxiliary - Security (Non-Burglary)"
        technical
    ∷ zr_desc 54 "auxiliary_low_cylinder_gas_pressure_24h"
        "24h Auxiliary - Low Cylinder Gas Pressure" gas
    ∷ zr_desc 55 "auxiliary_high_temp_24h" "24h Auxiliary - High Temperature" temperature
    ∷ zr_desc 56 "auxiliary_low_temp_24h" "24h Auxiliary - Low Temperature" temperature
    ∷ zr_desc 57 "technical_door_control" "Technical - Door Control" technical
    ∷ zr_desc 58 "technical_door_button" "Technical - Door Button" control
    ∷ zr_desc 59 "technical_ac_trouble" "Technical - AC Loss" technical
    ∷ zr_desc 60 "technical_battery_trouble" "Technical - Battery Trouble" technical
    ∷ zr_desc 61 "technical_gsm_trouble" "Technical - GSM Trouble" technical
    ∷ zr_desc 62 "technical_power_supply_overload" "Technical - Power Supply Overload" technical
    ∷ zr_desc 63 "trouble" "Trouble" technical
    ∷ zr_desc 64 "blocking_group_1" "Blocking - Group 1" control
    ∷ zr_desc 65 "blocking_group_2" "Blocking - Group 2" control
    ∷ zr_desc 66 "blocking_group_3" "Blocking - Group 3" control
    ∷ zr_desc 67 "blocking_group_4" "Blocking - Group 4" control
    ∷ zr_desc 68 "blocking_group_5" "Blocking - Group 5" control
    ∷ zr_desc 69 "blocking_group_6" "Blocking - Group 6" control
    ∷ zr_desc 70 "blocking_group_7" "Blocking - Group 7" control
    ∷ zr_desc 71 "blocking_group_8" "Blocking - Group 8" control
    ∷ zr_desc 72 "blocking_group_9" "Blocking - Group 9" control
    ∷ zr_desc 73 "blocking_group_10" "Blocking - Group 10" control
    ∷ zr_desc 74 "blocking_group_11" "Blocking - Group 11" control
    ∷ zr_desc 75 "blocking_group_12" "Blocking - Group 12" control
    ∷ zr_desc 76 "blocking_group_13" "Blocking - Group 13" control
    ∷ zr_desc 77 "blocking_group_14" "Blocking - Group 14" control
    ∷ zr_desc 78 "blocking_group_15" "Blocking - Group 15" control
    ∷ zr_desc 79 "blocking_group_16" "Blocking - Group 16" control
    ∷ zr_desc 80 "arming" "Arming" control
    ∷ zr_desc 81 "disarming" "Disarming" control
    ∷ zr_desc 82 "arm_disarm" "Arm/Disarm" control
    ∷ zr_desc 83 "alarm_clearing" "Alarm Clearing" control
    ∷ zr_desc 84 "guard_round" "Guard Round" other
    ∷ zr_desc 85 "entry_exit_conditional" "Entry/Exit - Conditional" burglary
    ∷ zr_desc 86 "entry_exit_final" "Entry/Exit - Final" burglary
    ∷ zr_desc 87 "exit_final" "Exit - Final" burglary
    ∷ zr_desc 88 "burglary_24h" "24h Burglary" burglary
    ∷ zr_desc 89 "exit_time_terminating" "Exit Time Terminating" control
    ∷ zr_desc 90 "verification_blocking" "Verification Blocking" control
    ∷ zr_desc 91 "masking_sensor" "Masking Sensor" tamper
    ∷ zr_desc 92 "outputs_group_off" "Outputs Group Off" control
    ∷ zr_desc 93 "outputs_group_on" "Outputs Group On" control
    ∷ zr_desc 94 "entry_exit_interior" "Entry/Exit Interior" burglary
    ∷ zr_desc 95 "entry_interior" "Entry Interior" burglary
    ∷ zr_desc 96 "monitoring_fire" "Monitoring Fire" fire
    ∷ zr_desc 97 "monitoring_fire_panel_trouble" "Monitoring - Fire Panel Trouble" technical
    ∷ []

-- `if (c as usize) < Self::catalog().len() { … } else { … }`: the entry at the code, if there is one.
unfoldable pub entry_of : ZoneReaction → Option ZoneReactionDescriptor
unfolding catalog
entry_of reaction = get_elem? catalog (code reaction)

unfoldable pub key : ZoneReaction → String
key reaction = get_or (Option.map (λ entry. entry.key) (entry_of reaction)) "unknown"

unfoldable pub label_en : ZoneReaction → String
label_en reaction = get_or (Option.map (λ entry. entry.label_en) (entry_of reaction)) "Unknown"

unfoldable pub kind : ZoneReaction → ZoneKind
kind reaction = get_or (Option.map (λ entry. entry.kind) (entry_of reaction)) other
