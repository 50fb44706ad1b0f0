-- ===== src/Troubles/Rules/Fits.antt =====
-- src/parsers/system.rs: every rule of a command reads within the bytes that `decode_troubles` asks
-- for.
use satel_integra.Common.{
  ℕ, ◌+◌, ◌≤◌, ◌<◌, inl, inr, Bool, true, false, Bool-cases, List, [], ◌∷◌, leb, length, All, ◌&◌,
  arith,
}
use satel_integra.Common.Panics.{Succeeds, some-Succeeds, bind-Succeeds, get_elem?-Succeeds}
use satel_integra.Troubles.Custom.Reads.{
  decode_system_troubles-Succeeds, decode_ethm_ptsa_status-Succeeds, decode_aux_stm-Succeeds,
  decode_acu_jam_level-Succeeds, decode_acu_jam_level_16_30-Succeeds, decode_gsm_block-Succeeds,
}
use satel_integra.Troubles.Custom.{decode_gsm_block}
use satel_integra.Troubles.Rules.{
  FieldRule, bitmask, module_mask, custom, bitmask_limit, decode_panel_cme, part1_rules,
  part2_rules, memory_part2_rules, part3_rules, memory_part3_rules, part4_rules, part5_rules,
  zone_rules, wireless_rules, part7_rules,
}

-- On at least `least` bytes the rule reads none out of range.
abbrev pub Fits : ℕ → FieldRule → Type 0
Fits least (bitmask offset size start_num memory make) = offset + size ≤ least
Fits least (module_mask offset memory make) = offset < least
Fits least (custom memory extractor) = (bytes : List ℕ) → Succeeds (extractor bytes memory)
Fits least (bitmask_limit offset size limit start_num memory make) = offset + size ≤ least

decode_panel_cme-Succeeds :
    (bytes : List ℕ) (memory : Bool) → Succeeds (decode_panel_cme bytes memory)
unfolding decode_panel_cme
decode_panel_cme-Succeeds bytes memory = elim (Bool-cases (leb 39 (length bytes))) [
  | inl e ↦
      let long : 39 ≤ length bytes = ground arith in
      rw e (
        bind-Succeeds (get_elem?-Succeeds bytes 35 (omega arith)) λ c35.
          bind-Succeeds (get_elem?-Succeeds bytes 36 (omega arith)) λ c36.
            bind-Succeeds (get_elem?-Succeeds bytes 37 (omega arith)) λ c37.
              bind-Succeeds (get_elem?-Succeeds bytes 38 (omega arith)) λ c38. some-Succeeds _)
  | inr e ↦ rw e (some-Succeeds _)
]

pub part1_rules-Fits : (memory : Bool) → All (Fits 47) (part1_rules memory)
unfolding part1_rules
part1_rules-Fits memory =
    (omega arith)
    & (omega arith)
    & (omega arith)
    & (omega arith)
    & (λ bytes. decode_system_troubles-Succeeds bytes memory)
    & (omega arith)
    & (omega arith)
    & (omega arith)
    & (λ bytes. decode_ethm_ptsa_status-Succeeds bytes memory)
    & tt

pub part2_rules-Fits :
    (least : ℕ) (memory : Bool) (more : List FieldRule)
    → 26 ≤ least
    → All (Fits least) more
    → All (Fits least) (part2_rules memory more)
unfolding part2_rules
part2_rules-Fits least memory more h rest =
    (omega arith) & (omega arith) & (omega arith) & (omega arith) & rest

pub memory_part2_rules-Fits : All (Fits 39) memory_part2_rules
unfolding memory_part2_rules
memory_part2_rules-Fits =
    (omega arith) & (omega arith) & (λ bytes. decode_panel_cme-Succeeds bytes true) & tt

pub wireless_rules-Fits :
    (least offset start_num : ℕ) (memory : Bool)
    → offset + 45 ≤ least
    → All (Fits least) (wireless_rules offset start_num memory)
unfolding wireless_rules
wireless_rules-Fits least offset start_num memory h =
    (omega arith) & (omega arith) & (omega arith) & tt

pub part3_rules-Fits : All (Fits 60) part3_rules
unfolding part3_rules
part3_rules-Fits =
    (λ bytes. decode_acu_jam_level-Succeeds bytes false)
    & wireless_rules-Fits 60 15 17 false (omega arith)

pub memory_part3_rules-Fits : All (Fits 60) memory_part3_rules
unfolding memory_part3_rules
memory_part3_rules-Fits =
    (omega arith) & (omega arith) & wireless_rules-Fits 60 15 17 true (omega arith)

pub part4_rules-Fits : (memory : Bool) → All (Fits 30) (part4_rules memory)
unfolding part4_rules
part4_rules-Fits memory =
    (omega arith)
    & (omega arith)
    & (omega arith)
    & (omega arith)
    & (omega arith)
    & (omega arith)
    & (omega arith)
    & (omega arith)
    & (λ bytes. decode_aux_stm-Succeeds bytes memory)
    & tt

pub part5_rules-Fits : All (Fits 31) part5_rules
unfolding part5_rules
part5_rules-Fits = (omega arith) & (omega arith) & tt

pub zone_rules-Fits : (start_num : ℕ) → All (Fits 48) (zone_rules start_num)
unfolding zone_rules
zone_rules-Fits start_num = (omega arith) & (omega arith) & (omega arith) & tt

pub part7_rules-Fits : All (Fits 47) part7_rules
unfolding part7_rules
part7_rules-Fits =
    (omega arith) & (omega arith) & (λ bytes. decode_acu_jam_level_16_30-Succeeds bytes false) & tt

pub gsm_rules-Fits : (memory : Bool) → All (Fits 64) (custom memory decode_gsm_block ∷ [])
gsm_rules-Fits memory = (λ bytes. decode_gsm_block-Succeeds bytes memory) & tt
