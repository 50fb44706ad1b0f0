-- ===== src/Troubles/Frames/Zones.antt =====
-- src/parsers/system.rs, the parsers for the frames about zones.
use satel_integra.Common.{ℕ, false, Option, some, List, ◌∷◌, ◌==◌, length, ◌≤◌, ◌≡◌, refl, arith}
use satel_integra.Common.Panics.{
  ◌>>=◌, slice, some-Succeeds, Succeeds, bind-Succeeds, slice-Succeeds,
}
use satel_integra.Error.{Result}
use satel_integra.Troubles.Frames.Reading.{
  parse_part, bits_of, bits_of-Succeeds, outcome, long_enough, outcome-parse_part,
}
use satel_integra.Troubles.Parts.{
  TroublesMemoryPart5Data, TroublesPart7Data, TroublesMemoryPart7Data,
}

read_memory_part5 : ℕ → ℕ → List ℕ → Option TroublesMemoryPart5Data
read_memory_part5 now first bytes = do
  zone_long_violation ← bits_of bytes 0 16
  zone_no_violation ← bits_of bytes 16 32
  zone_tamper ← bits_of bytes 32 48
  some (record {
    zone_long_violation = zone_long_violation;
    zone_no_violation = zone_no_violation;
    zone_tamper = zone_tamper;
    read_at = now;
  })

read_memory_part5-Succeeds :
    (now first : ℕ) (bytes : List ℕ)
    → 48 ≤ length bytes
    → Succeeds (read_memory_part5 now first bytes)
unfolding read_memory_part5
read_memory_part5-Succeeds now first bytes h =
    bind-Succeeds (bits_of-Succeeds bytes 0 16 (omega arith) (omega arith)) λ zone_long_violation.
      bind-Succeeds (bits_of-Succeeds bytes 16 32 (omega arith) (omega arith)) λ zone_no_violation.
        bind-Succeeds (bits_of-Succeeds bytes 32 48 (omega arith) (omega arith))
          λ zone_tamper. some-Succeeds _

unfoldable pub process_troubles_memory_part5 : ℕ → List ℕ → Option (Result TroublesMemoryPart5Data)
unfolding parse_part read_memory_part5
process_troubles_memory_part5 now = parse_part (λ first. first == 0x24) 48 (read_memory_part5 now)

pub outcome-process_troubles_memory_part5 :
    (now : ℕ) (bytes : List ℕ)
    → outcome (process_troubles_memory_part5 now (0x24 ∷ bytes)) ≡ some (long_enough 48 bytes)
unfolding process_troubles_memory_part5
outcome-process_troubles_memory_part5 now bytes =
    outcome-parse_part (λ first. first == 0x24) 48 (read_memory_part5 now) 0x24 bytes refl
      (read_memory_part5-Succeeds now 0x24 bytes)

read_part7 : ℕ → ℕ → List ℕ → Option TroublesPart7Data
read_part7 now first bytes = do
  technical_zones ← bits_of bytes 0 16
  technical_zones_memory ← bits_of bytes 16 32
  acu_jam_levels ← slice bytes 32 47
  some (record {
    is_memory = false;
    technical_zones = technical_zones;
    technical_zones_memory = technical_zones_memory;
    acu_jam_levels = acu_jam_levels;
    read_at = now;
  })

read_part7-Succeeds :
    (now first : ℕ) (bytes : List ℕ) → 47 ≤ length bytes → Succeeds (read_part7 now first bytes)
unfolding read_part7
read_part7-Succeeds now first bytes h =
    bind-Succeeds (bits_of-Succeeds bytes 0 16 (omega arith) (omega arith)) λ technical_zones.
      bind-Succeeds (bits_of-Succeeds bytes 16 32 (omega arith) (omega arith))
        λ technical_zones_memory.
          bind-Succeeds (slice-Succeeds bytes 32 47 (omega arith) (omega arith))
            λ acu_jam_levels. some-Succeeds _

unfoldable pub process_troubles_part7 : ℕ → List ℕ → Option (Result TroublesPart7Data)
unfolding parse_part read_part7
process_troubles_part7 now = parse_part (λ first. first == 0x2D) 47 (read_part7 now)

pub outcome-process_troubles_part7 :
    (now : ℕ) (bytes : List ℕ)
    → outcome (process_troubles_part7 now (0x2D ∷ bytes)) ≡ some (long_enough 47 bytes)
unfolding process_troubles_part7
outcome-process_troubles_part7 now bytes =
    outcome-parse_part (λ first. first == 0x2D) 47 (read_part7 now) 0x2D bytes refl
      (read_part7-Succeeds now 0x2D bytes)

read_memory_part7 : ℕ → ℕ → List ℕ → Option TroublesMemoryPart7Data
read_memory_part7 now first bytes = do
  zone_long_violation ← bits_of bytes 0 16
  zone_no_violation ← bits_of bytes 16 32
  zone_tamper ← bits_of bytes 32 48
  some (record {
    zone_long_violation = zone_long_violation;
    zone_no_violation = zone_no_violation;
    zone_tamper = zone_tamper;
    read_at = now;
  })

read_memory_part7-Succeeds :
    (now first : ℕ) (bytes : List ℕ)
    → 48 ≤ length bytes
    → Succeeds (read_memory_part7 now first bytes)
unfolding read_memory_part7
read_memory_part7-Succeeds now first bytes h =
    bind-Succeeds (bits_of-Succeeds bytes 0 16 (omega arith) (omega arith)) λ zone_long_violation.
      bind-Succeeds (bits_of-Succeeds bytes 16 32 (omega arith) (omega arith)) λ zone_no_violation.
        bind-Succeeds (bits_of-Succeeds bytes 32 48 (omega arith) (omega arith))
          λ zone_tamper. some-Succeeds _

unfoldable pub process_troubles_memory_part7 : ℕ → List ℕ → Option (Result TroublesMemoryPart7Data)
unfolding parse_part read_memory_part7
process_troubles_memory_part7 now = parse_part (λ first. first == 0x2F) 48 (read_memory_part7 now)

pub outcome-process_troubles_memory_part7 :
    (now : ℕ) (bytes : List ℕ)
    → outcome (process_troubles_memory_part7 now (0x2F ∷ bytes)) ≡ some (long_enough 48 bytes)
unfolding process_troubles_memory_part7
outcome-process_troubles_memory_part7 now bytes =
    outcome-parse_part (λ first. first == 0x2F) 48 (read_memory_part7 now) 0x2F bytes refl
      (read_memory_part7-Succeeds now 0x2F bytes)
