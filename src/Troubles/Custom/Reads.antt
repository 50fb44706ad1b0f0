-- ===== src/Troubles/Custom/Reads.antt =====
-- src/parsers/system.rs: the decoders outside the masks never index their bytes out of range.
use satel_integra.Common.{
  ℕ, zero, suc, ◌+◌, ◌*◌, ◌≤◌, ◌<◌, Bool, List, inl, inr, Bool-cases, ltb, min, length, arith,
}
use satel_integra.Common.Panics.{Succeeds, some-Succeeds, bind-Succeeds, get_elem?-Succeeds}
use satel_integra.Troubles.Custom.{
  decode_system_troubles, decode_ethm_ptsa_status, decode_aux_stm, jam_levels, decode_acu_jam_level,
  decode_acu_jam_level_16_30, gsm_module_items, gsm_modules, decode_gsm_block,
}

pub decode_system_troubles-Succeeds :
    (bytes : List ℕ) (memory : Bool) → Succeeds (decode_system_troubles bytes memory)
unfolding decode_system_troubles
decode_system_troubles-Succeeds bytes memory = elim (Bool-cases (ltb (length bytes) 43)) [
  | inl e ↦ rw e (some-Succeeds _)
  | inr e ↦
      let long : 43 ≤ length bytes = ground arith in
      rw e (
        bind-Succeeds (get_elem?-Succeeds bytes 40 (omega arith)) λ b1.
          bind-Succeeds (get_elem?-Succeeds bytes 41 (omega arith))
            λ b2. bind-Succeeds (get_elem?-Succeeds bytes 42 (omega arith)) λ b3. some-Succeeds _)
]

pub decode_ethm_ptsa_status-Succeeds :
    (bytes : List ℕ) (memory : Bool) → Succeeds (decode_ethm_ptsa_status bytes memory)
unfolding decode_ethm_ptsa_status
decode_ethm_ptsa_status-Succeeds bytes memory = elim (Bool-cases (ltb (length bytes) 47)) [
  | inl e ↦ rw e (some-Succeeds _)
  | inr e ↦
      let long : 47 ≤ length bytes = ground arith in
      rw e (bind-Succeeds (get_elem?-Succeeds bytes 46 (omega arith)) λ p4. some-Succeeds _)
]

pub decode_aux_stm-Succeeds :
    (bytes : List ℕ) (memory : Bool) → Succeeds (decode_aux_stm bytes memory)
unfolding decode_aux_stm
decode_aux_stm-Succeeds bytes memory = elim (Bool-cases (ltb 29 (length bytes))) [
  | inl e ↦
      let long : 29 < length bytes = ground arith in
      rw e (bind-Succeeds (get_elem?-Succeeds bytes 29 long) λ byte. some-Succeeds _)
  | inr e ↦ rw e (some-Succeeds _)
]

jam_levels-Succeeds :
    (bytes : List ℕ) (first at count : ℕ)
    → at + count ≤ length bytes
    → Succeeds (jam_levels bytes first at count)
unfolding jam_levels
jam_levels-Succeeds bytes first at zero h = some-Succeeds _
jam_levels-Succeeds bytes first at (suc count) h =
    bind-Succeeds (get_elem?-Succeeds bytes at (omega arith)) λ level.
      bind-Succeeds (jam_levels-Succeeds bytes (first + 1) (at + 1) count (omega arith))
        λ items. some-Succeeds _

pub decode_acu_jam_level-Succeeds :
    (bytes : List ℕ) (memory : Bool) → Succeeds (decode_acu_jam_level bytes memory)
unfolding decode_acu_jam_level
decode_acu_jam_level-Succeeds bytes memory =
    jam_levels-Succeeds bytes 1 0 (min 15 (length bytes)) (omega arith)

pub decode_acu_jam_level_16_30-Succeeds :
    (bytes : List ℕ) (memory : Bool) → Succeeds (decode_acu_jam_level_16_30 bytes memory)
unfolding decode_acu_jam_level_16_30
decode_acu_jam_level_16_30-Succeeds bytes memory = elim (Bool-cases (ltb (length bytes) 47)) [
  | inl e ↦ rw e (some-Succeeds _)
  | inr e ↦
      let long : 47 ≤ length bytes = ground arith in
      rw e (jam_levels-Succeeds bytes 16 32 15 (omega arith))
]

gsm_module_items-Succeeds :
    (m : ℕ) (bytes : List ℕ) (memory : Bool)
    → m * 8 + 8 ≤ length bytes
    → Succeeds (gsm_module_items m bytes memory)
unfolding gsm_module_items
gsm_module_items-Succeeds m bytes memory h =
    bind-Succeeds (get_elem?-Succeeds bytes (m * 8) (omega arith)) λ b0.
      bind-Succeeds (get_elem?-Succeeds bytes (m * 8 + 1) (omega arith)) λ b1.
        bind-Succeeds (get_elem?-Succeeds bytes (m * 8 + 2) (omega arith)) λ b2.
          bind-Succeeds (get_elem?-Succeeds bytes (m * 8 + 3) (omega arith)) λ b3.
            bind-Succeeds (get_elem?-Succeeds bytes (m * 8 + 4) (omega arith)) λ c4.
              bind-Succeeds (get_elem?-Succeeds bytes (m * 8 + 5) (omega arith)) λ c5.
                bind-Succeeds (get_elem?-Succeeds bytes (m * 8 + 6) (omega arith)) λ c6.
                  bind-Succeeds (get_elem?-Succeeds bytes (m * 8 + 7) (omega arith))
                    λ c7. some-Succeeds _

gsm_modules-Succeeds :
    (bytes : List ℕ) (memory : Bool) (m count : ℕ) → Succeeds (gsm_modules bytes memory m count)
unfolding gsm_modules
gsm_modules-Succeeds bytes memory m zero = some-Succeeds _
gsm_modules-Succeeds bytes memory m (suc count) =
    let rest = gsm_modules-Succeeds bytes memory (m + 1) count in
    elim (Bool-cases (ltb (length bytes) (m * 8 + 8))) [
      | inl e ↦ rw e (some-Succeeds _)
      | inr e ↦
          let long : m * 8 + 8 ≤ length bytes = ground arith in
          rw e (
            bind-Succeeds (gsm_module_items-Succeeds m bytes memory long)
              λ items. bind-Succeeds rest λ more. some-Succeeds _)
    ]

pub decode_gsm_block-Succeeds :
    (bytes : List ℕ) (memory : Bool) → Succeeds (decode_gsm_block bytes memory)
unfolding decode_gsm_block
decode_gsm_block-Succeeds bytes memory = gsm_modules-Succeeds bytes memory 0 8
