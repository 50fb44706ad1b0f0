-- ===== src/Troubles/Frames/Wireless.antt =====
-- src/parsers/system.rs, the parsers for the frames about wireless devices and key fobs.
use satel_integra.Common.{
  ℕ, false, ◌||◌, Option, some, List, ◌∷◌, ◌==◌, length, ◌≤◌, ◌≡◌, refl, arith,
}
use satel_integra.Common.Panics.{
  ◌>>=◌, slice, some-Succeeds, Succeeds, bind-Succeeds, slice-Succeeds,
}
use satel_integra.Error.{Result}
use satel_integra.Troubles.Frames.Reading.{
  parse_part, bits_of, bits_of-Succeeds, outcome, long_enough, outcome-parse_part,
}
use satel_integra.Troubles.Parts.{
  TroublesPart3Data, TroublesMemoryPart3Data, TroublesPart5Data, TroublesPart6Data,
}

read_part3 : ℕ → ℕ → List ℕ → Option TroublesPart3Data
read_part3 now first bytes = do
  wireless_devices_low_battery ← bits_of bytes 15 30
  wireless_devices_no_comm ← bits_of bytes 30 45
  wireless_outputs_no_comm ← bits_of bytes 45 60
  acu_jam_levels ← slice bytes 0 15
  some (record {
    is_memory = false;
    acu_jam_levels = acu_jam_levels;
    wireless_devices_low_battery = wireless_devices_low_battery;
    wireless_devices_no_comm = wireless_devices_no_comm;
    wireless_outputs_no_comm = wireless_outputs_no_comm;
    read_at = now;
  })

read_part3-Succeeds :
    (now first : ℕ) (bytes : List ℕ) → 60 ≤ length bytes → Succeeds (read_part3 now first bytes)
unfolding read_part3
read_part3-Succeeds now first bytes h =
    bind-Succeeds (bits_of-Succeeds bytes 15 30 (omega arith) (omega arith))
      λ wireless_devices_low_battery.
        bind-Succeeds (bits_of-Succeeds bytes 30 45 (omega arith) (omega arith))
          λ wireless_devices_no_comm.
            bind-Succeeds (bits_of-Succeeds bytes 45 60 (omega arith) (omega arith))
              λ wireless_outputs_no_comm.
                bind-Succeeds (slice-Succeeds bytes 0 15 (omega arith) (omega arith))
                  λ acu_jam_levels. some-Succeeds _

unfoldable pub process_troubles_part3 : ℕ → List ℕ → Option (Result TroublesPart3Data)
unfolding parse_part read_part3
process_troubles_part3 now = parse_part (λ first. first == 0x1D) 60 (read_part3 now)

pub outcome-process_troubles_part3 :
    (now : ℕ) (bytes : List ℕ)
    → outcome (process_troubles_part3 now (0x1D ∷ bytes)) ≡ some (long_enough 60 bytes)
unfolding process_troubles_part3
outcome-process_troubles_part3 now bytes =
    outcome-parse_part (λ first. first == 0x1D) 60 (read_part3 now) 0x1D bytes refl
      (read_part3-Succeeds now 0x1D bytes)

read_memory_part3 : ℕ → ℕ → List ℕ → Option TroublesMemoryPart3Data
read_memory_part3 now first bytes = do
  acu_jammed_or_short_circuit ← bits_of bytes 0 2
  acu_jammed_or_short_circuit_memory ← bits_of bytes 2 4
  wireless_devices_low_battery ← bits_of bytes 15 30
  wireless_devices_no_comm ← bits_of bytes 30 45
  wireless_outputs_no_comm ← bits_of bytes 45 60
  some (record {
    acu_jammed_or_short_circuit = acu_jammed_or_short_circuit;
    acu_jammed_or_short_circuit_memory = acu_jammed_or_short_circuit_memory;
    wireless_devices_low_battery = wireless_devices_low_battery;
    wireless_devices_no_comm = wireless_devices_no_comm;
    wireless_outputs_no_comm = wireless_outputs_no_comm;
    read_at = now;
  })

read_memory_part3-Succeeds :
    (now first : ℕ) (bytes : List ℕ)
    → 60 ≤ length bytes
    → Succeeds (read_memory_part3 now first bytes)
unfolding read_memory_part3
read_memory_part3-Succeeds now first bytes h =
    bind-Succeeds (bits_of-Succeeds bytes 0 2 (omega arith) (omega arith))
      λ acu_jammed_or_short_circuit.
        bind-Succeeds (bits_of-Succeeds bytes 2 4 (omega arith) (omega arith))
          λ acu_jammed_or_short_circuit_memory.
            bind-Succeeds (bits_of-Succeeds bytes 15 30 (omega arith) (omega arith))
              λ wireless_devices_low_battery.
                bind-Succeeds (bits_of-Succeeds bytes 30 45 (omega arith) (omega arith))
                  λ wireless_devices_no_comm.
                    bind-Succeeds (bits_of-Succeeds bytes 45 60 (omega arith) (omega arith))
                      λ wireless_outputs_no_comm. some-Succeeds _

unfoldable pub process_troubles_memory_part3 : ℕ → List ℕ → Option (Result TroublesMemoryPart3Data)
unfolding parse_part read_memory_part3
process_troubles_memory_part3 now = parse_part (λ first. first == 0x22) 60 (read_memory_part3 now)

pub outcome-process_troubles_memory_part3 :
    (now : ℕ) (bytes : List ℕ)
    → outcome (process_troubles_memory_part3 now (0x22 ∷ bytes)) ≡ some (long_enough 60 bytes)
unfolding process_troubles_memory_part3
outcome-process_troubles_memory_part3 now bytes =
    outcome-parse_part (λ first. first == 0x22) 60 (read_memory_part3 now) 0x22 bytes refl
      (read_memory_part3-Succeeds now 0x22 bytes)

read_part5 : ℕ → ℕ → List ℕ → Option TroublesPart5Data
read_part5 now first bytes = do
  masters_key_fobs_low_battery ← bits_of bytes 0 1
  users_key_fobs_low_battery ← bits_of bytes 1 31
  some (record {
    is_memory = false;
    masters_key_fobs_low_battery = masters_key_fobs_low_battery;
    users_key_fobs_low_battery = users_key_fobs_low_battery;
    read_at = now;
  })

read_part5-Succeeds :
    (now first : ℕ) (bytes : List ℕ) → 31 ≤ length bytes → Succeeds (read_part5 now first bytes)
unfolding read_part5
read_part5-Succeeds now first bytes h =
    bind-Succeeds (bits_of-Succeeds bytes 0 1 (omega arith) (omega arith))
      λ masters_key_fobs_low_battery.
        bind-Succeeds (bits_of-Succeeds bytes 1 31 (omega arith) (omega arith))
          λ users_key_fobs_low_battery. some-Succeeds _

unfoldable pub process_troubles_part5 : ℕ → List ℕ → Option (Result TroublesPart5Data)
unfolding parse_part read_part5
process_troubles_part5 now = parse_part (λ first. first == 0x1F) 31 (read_part5 now)

pub outcome-process_troubles_part5 :
    (now : ℕ) (bytes : List ℕ)
    → outcome (process_troubles_part5 now (0x1F ∷ bytes)) ≡ some (long_enough 31 bytes)
unfolding process_troubles_part5
outcome-process_troubles_part5 now bytes =
    outcome-parse_part (λ first. first == 0x1F) 31 (read_part5 now) 0x1F bytes refl
      (read_part5-Succeeds now 0x1F bytes)

read_part6 : ℕ → ℕ → List ℕ → Option TroublesPart6Data
read_part6 now first bytes = do
  wireless_devices_low_battery ← bits_of bytes 0 15
  wireless_devices_no_comm ← bits_of bytes 15 30
  wireless_outputs_no_comm ← bits_of bytes 30 45
  some (record {
    is_memory = first == 0x2E;
    wireless_devices_low_battery = wireless_devices_low_battery;
    wireless_devices_no_comm = wireless_devices_no_comm;
    wireless_outputs_no_comm = wireless_outputs_no_comm;
    read_at = now;
  })

read_part6-Succeeds :
    (now first : ℕ) (bytes : List ℕ) → 45 ≤ length bytes → Succeeds (read_part6 now first bytes)
unfolding read_part6
read_part6-Succeeds now first bytes h =
    bind-Succeeds (bits_of-Succeeds bytes 0 15 (omega arith) (omega arith))
      λ wireless_devices_low_battery.
        bind-Succeeds (bits_of-Succeeds bytes 15 30 (omega arith) (omega arith))
          λ wireless_devices_no_comm.
            bind-Succeeds (bits_of-Succeeds bytes 30 45 (omega arith) (omega arith))
              λ wireless_outputs_no_comm. some-Succeeds _

unfoldable pub process_troubles_part6 : ℕ → List ℕ → Option (Result TroublesPart6Data)
unfolding parse_part read_part6
process_troubles_part6 now =
    parse_part (λ first. (first == 0x2C) || (first == 0x2E)) 45 (read_part6 now)

pub outcome-process_troubles_part6 :
    (now : ℕ) (bytes : List ℕ)
    → outcome (process_troubles_part6 now (0x2C ∷ bytes)) ≡ some (long_enough 45 bytes)
unfolding process_troubles_part6
outcome-process_troubles_part6 now bytes =
    outcome-parse_part (λ first. (first == 0x2C) || (first == 0x2E)) 45 (read_part6 now) 0x2C bytes
      refl (read_part6-Succeeds now 0x2C bytes)

pub outcome-process_troubles_part6_memory :
    (now : ℕ) (bytes : List ℕ)
    → outcome (process_troubles_part6 now (0x2E ∷ bytes)) ≡ some (long_enough 45 bytes)
unfolding process_troubles_part6
outcome-process_troubles_part6_memory now bytes =
    outcome-parse_part (λ first. (first == 0x2C) || (first == 0x2E)) 45 (read_part6 now) 0x2E bytes
      refl (read_part6-Succeeds now 0x2E bytes)
