-- ===== src/Troubles/Rules.antt =====
-- src/parsers/system.rs: the tables that say where in a frame each trouble has its bit.
pub mod Fits
pub mod Tables
pub mod Named
pub mod Unknown
use satel_integra.Common.{
  ℕ, ◌%◌, ◌^◌, ◌≤◌, ◌*◌, ◌+◌, Bool, true, false, Option, none, some, List, [], ◌∷◌, ◌==◌, leb,
  if◌then◌else◌, length, get_elem?,
}
use satel_integra.Common.Panics.{◌>>=◌}
use satel_integra.Troubles.Types.{
  TroubleType, TroubleItem, technical_zone_trouble, expander_ac_loss, expander_battery_low,
  expander_battery_missing, ethm_ping_trouble, ethm_server_id_error,
  ethm_satel_server_connection_error, expander_card_reader_head_a, expander_card_reader_head_b,
  expander_supply_overload, expander_acu_jammed_or_short_circuit, cme_error, panel, keypad_restart,
  expander_restart, wireless_device_low_battery, wireless_device_no_comm, wireless_output_no_comm,
  expander_no_comm, expander_substituted, keypad_no_comm, keypad_substituted, ethm_no_lan_cable,
  expander_tamper, keypad_tamper, keypad_init_error, master_key_fob_low_battery,
  user_key_fob_low_battery, zone_long_violation_trouble, zone_no_violation_trouble,
  zone_tamper_trouble,
}
use satel_integra.Troubles.Custom.{
  decode_system_troubles, decode_ethm_ptsa_status, decode_aux_stm, decode_acu_jam_level,
  decode_acu_jam_level_16_30, decode_gsm_block, from_be_bytes,
}

pub data FieldRule : Type 0 where
  bitmask : (offset size start_num : ℕ) (memory : Bool) (make : ℕ → TroubleType) → FieldRule
  module_mask : (offset : ℕ) (memory : Bool) (make : ℕ → TroubleType) → FieldRule
  custom : (memory : Bool) (extractor : List ℕ → Bool → Option (List TroubleItem)) → FieldRule
  bitmask_limit :
      (offset size limit start_num : ℕ) (memory : Bool) (make : ℕ → TroubleType) → FieldRule

-- `|x| make(x as u8)`
abbrev pub as_u8 : (ℕ → TroubleType) → ℕ → TroubleType
as_u8 make x = make (x % 2 ^ 8)

-- 0x1B, and with the memory flag 0x20.
pub part1_rules : Bool → List FieldRule
part1_rules memory =
    bitmask 0 16 1 memory technical_zone_trouble
    ∷ bitmask 16 8 1 memory (as_u8 expander_ac_loss)
    ∷ bitmask 24 8 1 memory (as_u8 expander_battery_low)
    ∷ bitmask 32 8 1 memory (as_u8 expander_battery_missing)
    ∷ custom memory decode_system_troubles
    ∷ module_mask 43 memory (as_u8 ethm_ping_trouble)
    ∷ module_mask 44 memory (as_u8 ethm_server_id_error)
    ∷ module_mask 45 memory (as_u8 ethm_satel_server_connection_error)
    ∷ custom memory decode_ethm_ptsa_status
    ∷ []

-- 0x1C, and the first four rules of 0x21.
pub part2_rules : Bool → List FieldRule → List FieldRule
part2_rules memory more =
    bitmask 0 8 1 memory (as_u8 expander_card_reader_head_a)
    ∷ bitmask 8 8 1 memory (as_u8 expander_card_reader_head_b)
    ∷ bitmask 16 8 1 memory (as_u8 expander_supply_overload)
    ∷ bitmask 24 2 1 memory (as_u8 expander_acu_jammed_or_short_circuit)
    ∷ more

-- The closure among the rules of 0x21.
unfoldable pub decode_panel_cme : List ℕ → Bool → Option (List TroubleItem)
decode_panel_cme bytes memory =
    if leb 39 (length bytes)
    then (do
      c35 ← get_elem? bytes 35
      c36 ← get_elem? bytes 36
      c37 ← get_elem? bytes 37
      c38 ← get_elem? bytes 38
      some (
          cme_error panel 1 false (from_be_bytes c35 c36)
          ∷ cme_error panel 1 true (from_be_bytes c37 c38)
          ∷ []))
    else some []

pub memory_part2_rules : List FieldRule
unfolding decode_panel_cme
memory_part2_rules =
    module_mask 26 true (as_u8 keypad_restart)
    ∷ bitmask 27 8 1 true (as_u8 expander_restart)
    ∷ custom true decode_panel_cme
    ∷ []

-- Three masks of wireless devices, of fifteen bytes each: the last three rules of 0x1D and 0x22, and
-- the rules of 0x2C and 0x2E.
pub wireless_rules : ℕ → ℕ → Bool → List FieldRule
wireless_rules offset start_num memory =
    bitmask offset 15 start_num memory wireless_device_low_battery
    ∷ bitmask (offset + 15) 15 start_num memory wireless_device_no_comm
    ∷ bitmask (offset + 30) 15 start_num memory wireless_output_no_comm
    ∷ []

pub part3_rules : List FieldRule
unfolding wireless_rules
part3_rules = custom false decode_acu_jam_level ∷ wireless_rules 15 17 false

pub memory_part3_rules : List FieldRule
unfolding wireless_rules
memory_part3_rules =
    bitmask_limit 0 2 14 17 false (as_u8 expander_acu_jammed_or_short_circuit)
    ∷ bitmask_limit 2 2 14 17 true (as_u8 expander_acu_jammed_or_short_circuit)
    ∷ wireless_rules 15 17 true

-- 0x1E, and with the memory flag 0x23.
pub part4_rules : Bool → List FieldRule
part4_rules memory =
    bitmask 0 8 1 memory (as_u8 expander_no_comm)
    ∷ bitmask 8 8 1 memory (as_u8 expander_substituted)
    ∷ module_mask 16 memory (as_u8 keypad_no_comm)
    ∷ module_mask 17 memory (as_u8 keypad_substituted)
    ∷ module_mask 18 memory (as_u8 ethm_no_lan_cable)
    ∷ bitmask 19 8 1 memory (as_u8 expander_tamper)
    ∷ module_mask 27 memory (as_u8 keypad_tamper)
    ∷ module_mask 28 memory (as_u8 keypad_init_error)
    ∷ custom memory decode_aux_stm
    ∷ []

pub part5_rules : List FieldRule
part5_rules =
    module_mask 0 false (as_u8 master_key_fob_low_battery)
    ∷ bitmask 1 30 1 false user_key_fob_low_battery
    ∷ []

-- 0x24 and 0x2F.
pub zone_rules : ℕ → List FieldRule
zone_rules start_num =
    bitmask 0 16 start_num true zone_long_violation_trouble
    ∷ bitmask 16 16 start_num true zone_no_violation_trouble
    ∷ bitmask 32 16 start_num true zone_tamper_trouble
    ∷ []

pub part7_rules : List FieldRule
part7_rules =
    bitmask 0 16 129 false technical_zone_trouble
    ∷ bitmask 16 16 129 true technical_zone_trouble
    ∷ custom false decode_acu_jam_level_16_30
    ∷ []

-- The least number of bytes of a command's frame, and its rules.
unfoldable pub get_rules : ℕ → Option (ℕ × List FieldRule)
unfolding part1_rules part2_rules memory_part2_rules part3_rules memory_part3_rules part4_rules
    part5_rules zone_rules wireless_rules part7_rules
get_rules cmd =
    if cmd == 0x1B
    then some (47, part1_rules false)
    else if cmd == 0x20
    then some (47, part1_rules true)
    else if cmd == 0x1C
    then some (26, part2_rules false [])
    else if cmd == 0x21
    then some (39, part2_rules true memory_part2_rules)
    else if cmd == 0x1D
    then some (60, part3_rules)
    else if cmd == 0x22
    then some (60, memory_part3_rules)
    else if cmd == 0x1E
    then some (30, part4_rules false)
    else if cmd == 0x23
    then some (30, part4_rules true)
    else if cmd == 0x1F
    then some (31, part5_rules)
    else if cmd == 0x24
    then some (48, zone_rules 1)
    else if cmd == 0x2C
    then some (45, wireless_rules 0 137 false)
    else if cmd == 0x2E
    then some (45, wireless_rules 0 137 true)
    else if cmd == 0x2D
    then some (47, part7_rules)
    else if cmd == 0x2F
    then some (48, zone_rules 129)
    else if cmd == 0x30
    then some (64, custom false decode_gsm_block ∷ [])
    else if cmd == 0x31
    then some (64, custom true decode_gsm_block ∷ [])
    else none
