-- ===== src/Parsers/Versions.antt =====
-- src/parsers/system.rs: the versions of the panel and of its communication module, and the report
-- on the push configuration. Where the source turns bytes into text (`from_utf8_lossy` and `trim`)
-- the bytes are kept; its constant texts are texts here.
use satel_integra.Common.{
  ℕ, zero, suc, ◌+◌, Bool, false, not, ◌&&◌, ◌||◌, Option, none, some, List, [], ◌∷◌, ◌==◌, leb,
  if◌then◌else◌, take, drop, get_elem?,
}
use satel_integra.Error.{Result, ok, ◌>>=◌}
use satel_integra.Config.{Config}
use satel_integra.Parsers.Bits.{bit_set}
use satel_integra.Parsers.Zones.{frame_data}
use Prim.Native.String.{String}

pub record EthmCapabilities : Type 0 where
  pub support_32_byte_frames : Bool
  pub support_8_troubles_groups : Bool
  pub support_extended_arming_commands : Bool
  pub reserved_bit3 : Bool
  pub reserved_bit4 : Bool
  pub reserved_bit5 : Bool
  pub reserved_bit6 : Bool
  pub reserved_bit7 : Bool

pub record EthmVersion : Type 0 where
  pub version_raw : List ℕ
  pub capabilities : EthmCapabilities
  pub read_at : ℕ

-- `data[i]`, at an index that the length test has admitted.
abbrev pub byte_at : List ℕ → ℕ → ℕ
byte_at [] i = 0
byte_at (b ∷ bs) zero = b
byte_at (b ∷ bs) (suc i) = byte_at bs i

unfoldable pub process_ethm_version : ℕ → List ℕ → Result EthmVersion
unfolding frame_data
process_ethm_version now frame = do
  payload ← frame_data 0x7C 12 frame
  let caps_byte = byte_at payload 11
  ok (record {
    version_raw = take 11 payload;
    capabilities = record {
      support_32_byte_frames = bit_set caps_byte 0;
      support_8_troubles_groups = bit_set caps_byte 1;
      support_extended_arming_commands = bit_set caps_byte 2;
      reserved_bit3 = bit_set caps_byte 3;
      reserved_bit4 = bit_set caps_byte 4;
      reserved_bit5 = bit_set caps_byte 5;
      reserved_bit6 = bit_set caps_byte 6;
      reserved_bit7 = bit_set caps_byte 7;
    };
    read_at = now;
  })

pub record IntegraVersion : Type 0 where
  pub model : String
  pub firmware_version : List ℕ
  pub language : String
  pub stored_in_flash : Bool
  pub io_count : ℕ
  pub partition_count : ℕ
  pub read_at : ℕ

-- The model's name, its number of inputs and outputs and its number of partitions.
panel_model : ℕ → String × ℕ × ℕ
panel_model type_code =
    if type_code == 0
    then ("INTEGRA 24", 24, 4)
    else if type_code == 1
    then ("INTEGRA 32", 32, 16)
    else if type_code == 2
    then ("INTEGRA 64", 64, 32)
    else if type_code == 3
    then ("INTEGRA 128", 128, 32)
    else if type_code == 4
    then ("INTEGRA 128-WRL SIM300", 128, 32)
    else if type_code == 132
    then ("INTEGRA 128-WRL LEON", 128, 32)
    else if type_code == 66
    then ("INTEGRA 64 Plus", 64, 32)
    else if type_code == 67
    then ("INTEGRA 128 Plus", 128, 32)
    else if type_code == 72
    then ("INTEGRA 256 Plus", 256, 32)
    else if type_code == 8
    then ("INTEGRA 256 Plus", 256, 32)
    else ("Unknown INTEGRA", 0, 0)

panel_language : ℕ → String
panel_language code = if code == 0 then "PL" else if code == 1 then "EN" else "Other"

unfoldable pub process_integra_version : ℕ → List ℕ → Result IntegraVersion
unfolding frame_data panel_model panel_language
process_integra_version now frame = do
  payload ← frame_data 0x7E 14 frame
  let model = panel_model (byte_at payload 0)
  ok (record {
    model = model.0;
    firmware_version = take 11 (drop 1 payload);
    language = panel_language (byte_at payload 12);
    stored_in_flash = byte_at payload 13 == 255;
    io_count = model.1;
    partition_count = model.2;
    read_at = now;
  })

pub data AutoReadItemState : Type 0 where
  active not_requested unsupported_by_hardware : AutoReadItemState
  rejected_by_panel : ℕ → AutoReadItemState

pub record AutoReadItemStatus : Type 0 where
  pub name : String
  pub state : AutoReadItemState

pub record AutoReadReport : Type 0 where
  pub items : List AutoReadItemStatus
  pub success_count : ℕ
  pub total_requested : ℕ

-- The categories, with the byte of the mask that each starts in and whether it is asked for.
auto_read_defs : Config → List (String × ℕ × Bool)
auto_read_defs c =
    ("Zone violations (0x00)", 0, c.auto_read_zones_violation)
    ∷ ("Zone tampers (0x01)", 0, c.auto_read_zones_tamper)
    ∷ ("Zone alarms (0x02)", 0, c.auto_read_zones_alarm)
    ∷ ("Zone tamper alarms (0x03)", 0, c.auto_read_zones_tamper_alarm)
    ∷ ("Zone alarm memory (0x04)", 0, c.auto_read_zones_alarm_memory)
    ∷ ("Zone tamper alarm memory (0x05)", 0, c.auto_read_zones_tamper_alarm_memory)
    ∷ ("Zone bypasses (0x06)", 0, c.auto_read_zones_bypass)
    ∷ ("Zone 'no violation' trouble (0x07)", 0, c.auto_read_zones_no_violation_trouble)
    ∷ ("Zone 'long violation' trouble (0x08)", 1, c.auto_read_zones_long_violation_trouble)
    ∷ ("Partitions armed suppressed (0x09)", 1, c.auto_read_partitions_armed_suppressed)
    ∷ ("Partitions armed really (0x0A)", 1, c.auto_read_partitions_armed_really)
    ∷ ("Partitions alarm (0x13)", 2, c.auto_read_partitions_alarm)
    ∷ ("Partitions alarm memory (0x15)", 2, c.auto_read_partitions_alarm_memory)
    ∷ ("Partitions entry time (0x0E)", 1, c.auto_read_partitions_entry_time)
    ∷ ("Partitions exit time (0x0F, 0x10)", 1, c.auto_read_partitions_exit_time)
    ∷ ("Outputs state (0x17)", 2, c.auto_read_outputs_state)
    ∷ ("System troubles (0x1A-0x30)", 3, c.auto_read_system_troubles)
    ∷ ("Troubles memory (0x20-0x31)", 4, c.auto_read_troubles_memory)
    ∷ []

get_or : Option ℕ → ℕ → ℕ
get_or none d = d
get_or (some x) d = x

item_state : ℕ → Bool → Option ℕ → ℕ → Bool → AutoReadItemState
unfolding get_or
item_state mask_len is_success error_code byte_idx requested =
    if not requested
    then AutoReadItemState.not_requested
    else if leb mask_len byte_idx
    then AutoReadItemState.unsupported_by_hardware
    else if is_success
    then AutoReadItemState.active
    else AutoReadItemState.rejected_by_panel (get_or error_code 0x08)

-- The loop over the categories.
auto_read_items : ℕ → Bool → Option ℕ → List (String × ℕ × Bool) → AutoReadReport
unfolding item_state
auto_read_items mask_len is_success error_code [] = record {
  items = [];
  success_count = 0;
  total_requested = 0;
}
auto_read_items mask_len is_success error_code ((name, byte_idx, requested) ∷ defs) =
    let rest = auto_read_items mask_len is_success error_code defs in
    let state = item_state mask_len is_success error_code byte_idx requested in
    record {
      items = record { name = name; state = state } ∷ rest.items;
      success_count = elim state [
        | AutoReadItemState.active ↦ rest.success_count + 1
        | _ ↦ rest.success_count
      ];
      total_requested = if requested then rest.total_requested + 1 else rest.total_requested;
    }

-- On an empty answer the source indexes it at 0 and panics: `none`.
unfoldable pub process_auto_read_response : Config → Bool → List ℕ → Option AutoReadReport
unfolding auto_read_items auto_read_defs
process_auto_read_response config support_14_byte [] = none
process_auto_read_response config support_14_byte (first ∷ rest) =
    let mask_len : ℕ = if support_14_byte then 14 else 12 in
    let accepted : Bool = elim (get_elem? rest 0) [ none ↦ false | some code ↦ code == 0xFF ] in
    let is_success = (first == 0x7F) || ((first == 0xEF) && accepted) in
    let error_code = if not is_success && (first == 0xEF) then get_elem? rest 0 else none in
    some (auto_read_items mask_len is_success error_code (auto_read_defs config))
