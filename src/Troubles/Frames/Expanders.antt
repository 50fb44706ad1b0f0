-- ===== src/Troubles/Frames/Expanders.antt =====
-- src/parsers/system.rs, the parsers for the frames about expanders and keypads.
use satel_integra.Common.{
  ℕ, false, ◌||◌, Option, some, List, ◌∷◌, ◌==◌, length, get_elem?, ◌≤◌, ◌≡◌, refl, arith,
}
use satel_integra.Common.Panics.{◌>>=◌, some-Succeeds, Succeeds, bind-Succeeds, get_elem?-Succeeds}
use satel_integra.Error.{Result}
use satel_integra.Troubles.Custom.{from_be_bytes}
use satel_integra.Troubles.Frames.Reading.{
  parse_part, bits_of, bits_of-Succeeds, outcome, long_enough, outcome-parse_part,
}
use satel_integra.Troubles.Parts.{TroublesPart2Data, TroublesMemoryPart2Data, TroublesPart4Data}

read_part2 : ℕ → ℕ → List ℕ → Option TroublesPart2Data
read_part2 now first bytes = do
  card_readers_head_a_or_synchro ← bits_of bytes 0 8
  card_readers_head_b_or_charging ← bits_of bytes 8 16
  expanders_supply_overload ← bits_of bytes 16 24
  acu_jammed_or_short_circuit ← bits_of bytes 24 26
  some (record {
    is_memory = false;
    card_readers_head_a_or_synchro = card_readers_head_a_or_synchro;
    card_readers_head_b_or_charging = card_readers_head_b_or_charging;
    expanders_supply_overload = expanders_supply_overload;
    acu_jammed_or_short_circuit = acu_jammed_or_short_circuit;
    read_at = now;
  })

read_part2-Succeeds :
    (now first : ℕ) (bytes : List ℕ) → 26 ≤ length bytes → Succeeds (read_part2 now first bytes)
unfolding read_part2
read_part2-Succeeds now first bytes h =
    bind-Succeeds (bits_of-Succeeds bytes 0 8 (omega arith) (omega arith))
      λ card_readers_head_a_or_synchro.
        bind-Succeeds (bits_of-Succeeds bytes 8 16 (omega arith) (omega arith))
          λ card_readers_head_b_or_charging.
            bind-Succeeds (bits_of-Succeeds bytes 16 24 (omega arith) (omega arith))
              λ expanders_supply_overload.
                bind-Succeeds (bits_of-Succeeds bytes 24 26 (omega arith) (omega arith))
                  λ acu_jammed_or_short_circuit. some-Succeeds _

unfoldable pub process_troubles_part2 : ℕ → List ℕ → Option (Result TroublesPart2Data)
unfolding parse_part read_part2
process_troubles_part2 now = parse_part (λ first. first == 0x1C) 26 (read_part2 now)

pub outcome-process_troubles_part2 :
    (now : ℕ) (bytes : List ℕ)
    → outcome (process_troubles_part2 now (0x1C ∷ bytes)) ≡ some (long_enough 26 bytes)
unfolding process_troubles_part2
outcome-process_troubles_part2 now bytes =
    outcome-parse_part (λ first. first == 0x1C) 26 (read_part2 now) 0x1C bytes refl
      (read_part2-Succeeds now 0x1C bytes)

read_memory_part2 : ℕ → ℕ → List ℕ → Option TroublesMemoryPart2Data
read_memory_part2 now first bytes = do
  card_readers_head_a_or_synchro ← bits_of bytes 0 8
  card_readers_head_b_or_charging ← bits_of bytes 8 16
  expanders_supply_overload ← bits_of bytes 16 24
  acu_jammed_or_short_circuit ← bits_of bytes 24 26
  keypad_restart ← bits_of bytes 26 27
  expander_restart ← bits_of bytes 27 35
  c35 ← get_elem? bytes 35
  c36 ← get_elem? bytes 36
  c37 ← get_elem? bytes 37
  c38 ← get_elem? bytes 38
  some (record {
    card_readers_head_a_or_synchro = card_readers_head_a_or_synchro;
    card_readers_head_b_or_charging = card_readers_head_b_or_charging;
    expanders_supply_overload = expanders_supply_overload;
    acu_jammed_or_short_circuit = acu_jammed_or_short_circuit;
    keypad_restart = keypad_restart;
    expander_restart = expander_restart;
    sim_cme_error = from_be_bytes c35 c36;
    sim_cme_error_memory = from_be_bytes c37 c38;
    read_at = now;
  })

read_memory_part2-Succeeds :
    (now first : ℕ) (bytes : List ℕ)
    → 39 ≤ length bytes
    → Succeeds (read_memory_part2 now first bytes)
unfolding read_memory_part2
read_memory_part2-Succeeds now first bytes h =
    bind-Succeeds (bits_of-Succeeds bytes 0 8 (omega arith) (omega arith))
      λ card_readers_head_a_or_synchro.
        bind-Succeeds (bits_of-Succeeds bytes 8 16 (omega arith) (omega arith))
          λ card_readers_head_b_or_charging.
            bind-Succeeds (bits_of-Succeeds bytes 16 24 (omega arith) (omega arith))
              λ expanders_supply_overload.
                bind-Succeeds (bits_of-Succeeds bytes 24 26 (omega arith) (omega arith))
                  λ acu_jammed_or_short_circuit.
                    bind-Succeeds (bits_of-Succeeds bytes 26 27 (omega arith) (omega arith))
                      λ keypad_restart.
                        bind-Succeeds (bits_of-Succeeds bytes 27 35 (omega arith) (omega arith))
                          λ expander_restart.
                            bind-Succeeds (get_elem?-Succeeds bytes 35 (omega arith)) λ c35.
                              bind-Succeeds (get_elem?-Succeeds bytes 36 (omega arith)) λ c36.
                                bind-Succeeds (get_elem?-Succeeds bytes 37 (omega arith)) λ c37.
                                  bind-Succeeds (get_elem?-Succeeds bytes 38 (omega arith))
                                    λ c38. some-Succeeds _

unfoldable pub process_troubles_memory_part2 : ℕ → List ℕ → Option (Result TroublesMemoryPart2Data)
unfolding parse_part read_memory_part2
process_troubles_memory_part2 now = parse_part (λ first. first == 0x21) 39 (read_memory_part2 now)

pub outcome-process_troubles_memory_part2 :
    (now : ℕ) (bytes : List ℕ)
    → outcome (process_troubles_memory_part2 now (0x21 ∷ bytes)) ≡ some (long_enough 39 bytes)
unfolding process_troubles_memory_part2
outcome-process_troubles_memory_part2 now bytes =
    outcome-parse_part (λ first. first == 0x21) 39 (read_memory_part2 now) 0x21 bytes refl
      (read_memory_part2-Succeeds now 0x21 bytes)

read_part4 : ℕ → ℕ → List ℕ → Option TroublesPart4Data
read_part4 now first bytes = do
  expanders_no_comm ← bits_of bytes 0 8
  expanders_substituted ← bits_of bytes 8 16
  keypads_no_comm ← bits_of bytes 16 17
  keypads_substituted ← bits_of bytes 17 18
  ethm_no_lan_or_intrs_no_dsr ← bits_of bytes 18 19
  expanders_tamper ← bits_of bytes 19 27
  keypads_tamper ← bits_of bytes 27 28
  keypad_init_errors ← bits_of bytes 28 29
  auxiliary_stm_troubles ← get_elem? bytes 29
  some (record {
    is_memory = first == 0x23;
    expanders_no_comm = expanders_no_comm;
    expanders_substituted = expanders_substituted;
    keypads_no_comm = keypads_no_comm;
    keypads_substituted = keypads_substituted;
    ethm_no_lan_or_intrs_no_dsr = ethm_no_lan_or_intrs_no_dsr;
    expanders_tamper = expanders_tamper;
    keypads_tamper = keypads_tamper;
    keypad_init_errors = keypad_init_errors;
    auxiliary_stm_troubles = auxiliary_stm_troubles;
    read_at = now;
  })

read_part4-Succeeds :
    (now first : ℕ) (bytes : List ℕ) → 30 ≤ length bytes → Succeeds (read_part4 now first bytes)
unfolding read_part4
read_part4-Succeeds now first bytes h =
    bind-Succeeds (bits_of-Succeeds bytes 0 8 (omega arith) (omega arith)) λ expanders_no_comm.
      bind-Succeeds (bits_of-Succeeds bytes 8 16 (omega arith) (omega arith))
        λ expanders_substituted.
          bind-Succeeds (bits_of-Succeeds bytes 16 17 (omega arith) (omega arith))
            λ keypads_no_comm.
              bind-Succeeds (bits_of-Succeeds bytes 17 18 (omega arith) (omega arith))
                λ keypads_substituted.
                  bind-Succeeds (bits_of-Succeeds bytes 18 19 (omega arith) (omega arith))
                    λ ethm_no_lan_or_intrs_no_dsr.
                      bind-Succeeds (bits_of-Succeeds bytes 19 27 (omega arith) (omega arith))
                        λ expanders_tamper.
                          bind-Succeeds (bits_of-Succeeds bytes 27 28 (omega arith) (omega arith))
                            λ keypads_tamper.
                              bind-Succeeds
                                (bits_of-Succeeds bytes 28 29 (omega arith) (omega arith))
                                λ keypad_init_errors.
                                  bind-Succeeds (get_elem?-Succeeds bytes 29 (omega arith))
                                    λ auxiliary_stm_troubles. some-Succeeds _

unfoldable pub process_troubles_part4 : ℕ → List ℕ → Option (Result TroublesPart4Data)
unfolding parse_part read_part4
process_troubles_part4 now =
    parse_part (λ first. (first == 0x1E) || (first == 0x23)) 30 (read_part4 now)

pub outcome-process_troubles_part4 :
    (now : ℕ) (bytes : List ℕ)
    → outcome (process_troubles_part4 now (0x1E ∷ bytes)) ≡ some (long_enough 30 bytes)
unfolding process_troubles_part4
outcome-process_troubles_part4 now bytes =
    outcome-parse_part (λ first. (first == 0x1E) || (first == 0x23)) 30 (read_part4 now) 0x1E bytes
      refl (read_part4-Succeeds now 0x1E bytes)

pub outcome-process_troubles_part4_memory :
    (now : ℕ) (bytes : List ℕ)
    → outcome (process_troubles_part4 now (0x23 ∷ bytes)) ≡ some (long_enough 30 bytes)
unfolding process_troubles_part4
outcome-process_troubles_part4_memory now bytes =
    outcome-parse_part (λ first. (first == 0x1E) || (first == 0x23)) 30 (read_part4 now) 0x23 bytes
      refl (read_part4-Succeeds now 0x23 bytes)
