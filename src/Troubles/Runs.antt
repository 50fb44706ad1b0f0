-- ===== src/Troubles/Runs.antt =====
-- Frames of troubles, those of the source's own tests among them.
use satel_integra.Common.{
  ℕ, ◌*◌, ◌+◌, ◌/◌, ◌%◌, ◌≤◌, ◌≡◌, refl, Bool, true, false, Option, some, List, [], ◌∷◌, ◌++◌,
  length, get_elem?, if◌then◌else◌, arith,
}
use satel_integra.Error.{SatelError, Result, ok, err}
use satel_integra.Encryption.{repeat}
use satel_integra.Parsers.Bits.{bit_set}
use satel_integra.Troubles.Types.{
  TroubleItem, flag, acu_jam_level, cme_error, technical_zone_trouble,
  expander_acu_jammed_or_short_circuit, gsm_sim_pin_error, expander_ac_loss,
}
use satel_integra.Troubles.Custom.{
  decode_system_troubles, decode_ethm_ptsa_status, decode_gsm_block,
}
use satel_integra.Troubles.Rules.{bitmask, as_u8, get_rules}
use satel_integra.Troubles.Decode.{decode_rule, decode_troubles}
use satel_integra.Troubles.Decode.Masks.{get_elem?-decode_rule}
use satel_integra.Troubles.Frames.{process_troubles_frame}
use satel_integra.Troubles.Frames.Reading.{outcome}
use satel_integra.Troubles.Outcomes.{
  verdict, outcome-decode_troubles, outcome-process_troubles_frame,
}
use satel_integra.Troubles.Custom.{decode_system_troubles, decode_ethm_ptsa_status}
use satel_integra.Troubles.Types.{main_panel_restart_memory, ip_monitoring_station2_trouble}
use mathlib.Core.Option

is_active : TroubleItem → Bool
is_active (flag trouble memory active) = active
is_active (acu_jam_level jammed_module level) = true
is_active (cme_error source sim memory code) = false

active_items : List TroubleItem → List TroubleItem
unfolding is_active
active_items [] = []
active_items (item ∷ items) =
    let rest = active_items items in if is_active item then item ∷ rest else rest

active_in : Option (Result (List TroubleItem)) → List TroubleItem
unfolding active_items
active_in (some (ok items)) = active_items items
active_in _ = []

-- `test_t1_0x1b_byte_15_bit_7`
last_zone :
    active_in (decode_troubles 0x1B (repeat 15 0 ++ 0x80 ∷ repeat 31 0))
    ≡ flag (technical_zone_trouble 128) false true ∷ []
unfolding active_in decode_troubles get_rules decode_system_troubles decode_ethm_ptsa_status
last_zone = refl

-- `test_t1_0x22_byte_1_bit_5`, and with `test_t1_0x22_byte_1_bit_6` the limit of fourteen bits.
last_jammed :
    active_in (decode_troubles 0x22 (0 ∷ 0xE0 ∷ repeat 58 0))
    ≡ flag (expander_acu_jammed_or_short_circuit 30) false true ∷ []
unfolding active_in decode_troubles get_rules
last_jammed = refl

-- `test_t1_0x30_byte_57_bit_3`
gsm_flag :
    active_in (decode_troubles 0x30 (repeat 57 0 ++ 0x08 ∷ repeat 6 0))
    ≡ flag (gsm_sim_pin_error 7 2) false true ∷ []
unfolding active_in decode_troubles get_rules decode_gsm_block
gsm_flag = refl

short_frame : decode_troubles 0x1C (repeat 25 0) ≡ some (err SatelError.invalid_frame)
unfolding decode_troubles get_rules
short_frame = refl

outcome-decode_troubles_example :
    outcome (decode_troubles 0x1C (repeat 26 1)) ≡ some (verdict 0x1C (repeat 26 1))
outcome-decode_troubles_example = outcome-decode_troubles 0x1C (repeat 26 1)

outcome-process_troubles_frame_example :
    (outcome (process_troubles_frame 5 (0x31 ∷ repeat 63 9))
      ≡ outcome (decode_troubles 0x31 (repeat 63 9)))
    × (outcome (decode_troubles 0x31 (repeat 63 9)) ≡ some (verdict 0x31 (repeat 63 9)))
outcome-process_troubles_frame_example = outcome-process_troubles_frame 5 0x31 (repeat 63 9)

abbrev supplies : List ℕ
supplies = repeat 16 0 ++ 0 ∷ 0x40 ∷ repeat 29 0

enough : 16 + 8 ≤ length supplies
enough = omega arith

get_elem?-decode_rule_example :
    (items : List TroubleItem) × (decode_rule supplies
        (bitmask 16 8 1 false (as_u8 expander_ac_loss))
      ≡ some items)
    × (length items ≡ 8 * 8)
    × (get_elem? items 14
        ≡ Option.map
            (λ byte. flag (as_u8 expander_ac_loss (1 + 14)) false (bit_set byte (14 % 8)))
            (get_elem? supplies (16 + 14 / 8)))
get_elem?-decode_rule_example =
    get_elem?-decode_rule supplies 16 8 1 false (as_u8 expander_ac_loss) 14 enough (omega arith)
      (omega arith)

-- The last bit of each of the two, which the main board and the Ethernet module report.
last_bits :
    (Option.map active_items (decode_system_troubles (repeat 42 0 ++ 0x80 ∷ repeat 4 0) true)
      ≡ some (flag main_panel_restart_memory true true ∷ []))
    × (Option.map active_items (decode_ethm_ptsa_status (repeat 46 0 ++ 0x80 ∷ []) false)
        ≡ some (flag ip_monitoring_station2_trouble false true ∷ []))
last_bits = unfold active_items decode_system_troubles decode_ethm_ptsa_status in (refl, refl)
