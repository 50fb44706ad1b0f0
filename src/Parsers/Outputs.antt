-- ===== src/Parsers/Outputs.antt =====
-- src/parsers/outputs.rs: the mask of output states.
use satel_integra.Common.{ℕ, List}
use satel_integra.Error.{Result, ok, ◌>>=◌}
use satel_integra.Parsers.Bits.{extract_bits}
use satel_integra.Parsers.Zones.{States, frame_data}

unfoldable pub process_outputs_state : ℕ → List ℕ → Result States
process_outputs_state now frame = do
  payload ← frame_data 0x17 16 frame
  ok (record { states = extract_bits payload; read_at = now })
