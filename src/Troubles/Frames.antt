-- ===== src/Troubles/Frames.antt =====
-- src/parsers/system.rs, `process_troubles_frame`: from a frame of troubles to one of its twelve parts.
pub mod Reading
pub mod System
pub mod Expanders
pub mod Wireless
pub mod Zones
pub mod Gsm
use satel_integra.Common.{
  ℕ, zero, suc, ◌+◌, ◌*◌, Bool, true, false, not, ◌||◌, Option, none, some, List, [], ◌∷◌, ◌==◌,
  ltb, if◌then◌else◌, length, get_elem?, ◌≤◌, ◌≡◌, refl, arith, ◌-◌, take, drop, length-drop,
  length-take_le,
}
use satel_integra.Common.Panics.{
  ◌>>=◌, slice, some-Succeeds, Succeeds, bind-Succeeds, get_elem?-Succeeds, slice-Succeeds,
  slice-le,
}
use satel_integra.Error.{SatelError, Result, ok, err}
use satel_integra.Parsers.Bits.{bit_set, extract_bits}
use satel_integra.Troubles.Custom.{from_be_bytes}
use satel_integra.Troubles.Frames.System.{process_troubles_part1}
use satel_integra.Troubles.Frames.Expanders.{
  process_troubles_part2, process_troubles_memory_part2, process_troubles_part4,
}
use satel_integra.Troubles.Frames.Wireless.{
  process_troubles_part3, process_troubles_memory_part3, process_troubles_part5,
  process_troubles_part6,
}
use satel_integra.Troubles.Frames.Zones.{
  process_troubles_memory_part5, process_troubles_part7, process_troubles_memory_part7,
}
use satel_integra.Troubles.Frames.Gsm.{process_troubles_part8}
use satel_integra.Troubles.Parts.{
  TroublesData, part1, part2, memory_part2, part3, memory_part3, part4, part5, memory_part5, part6,
  part7, memory_part7, part8,
}

-- `Ok(make(parse(frame)?))`
unfoldable pub wrap :
    {A : Type 0} → (A → TroublesData) → Option (Result A) → Option (Result TroublesData)
wrap make parsed = do
  result ← parsed
  some (elim result [ err e ↦ err e | ok part ↦ ok (make part) ])

unfoldable pub process_troubles_frame : ℕ → List ℕ → Option (Result TroublesData)
unfolding wrap process_troubles_part1 process_troubles_part2 process_troubles_memory_part2
    process_troubles_part3 process_troubles_memory_part3 process_troubles_part4
    process_troubles_part5 process_troubles_memory_part5 process_troubles_part6
    process_troubles_part7 process_troubles_memory_part7 process_troubles_part8
process_troubles_frame now [] = some (err SatelError.invalid_frame)
process_troubles_frame now (first ∷ bytes) =
    if (first == 0x1B) || (first == 0x20)
    then wrap part1 (process_troubles_part1 now (first ∷ bytes))
    else if first == 0x1C
    then wrap part2 (process_troubles_part2 now (first ∷ bytes))
    else if first == 0x21
    then wrap memory_part2 (process_troubles_memory_part2 now (first ∷ bytes))
    else if first == 0x1D
    then wrap part3 (process_troubles_part3 now (first ∷ bytes))
    else if first == 0x22
    then wrap memory_part3 (process_troubles_memory_part3 now (first ∷ bytes))
    else if (first == 0x1E) || (first == 0x23)
    then wrap part4 (process_troubles_part4 now (first ∷ bytes))
    else if first == 0x1F
    then wrap part5 (process_troubles_part5 now (first ∷ bytes))
    else if first == 0x24
    then wrap memory_part5 (process_troubles_memory_part5 now (first ∷ bytes))
    else if (first == 0x2C) || (first == 0x2E)
    then wrap part6 (process_troubles_part6 now (first ∷ bytes))
    else if first == 0x2D
    then wrap part7 (process_troubles_part7 now (first ∷ bytes))
    else if first == 0x2F
    then wrap memory_part7 (process_troubles_memory_part7 now (first ∷ bytes))
    else if (first == 0x30) || (first == 0x31)
    then wrap part8 (process_troubles_part8 now (first ∷ bytes))
    else some (err SatelError.invalid_frame)
