-- ===== src/Parsers/Names/Outputs.antt =====
-- src/parsers/names.rs: the answers to command 0xEE for outputs. `none` is a panic, of an index out of
-- range. `decode_name` stands for the text decoding of encoding_rs and the trimming of a `String`: it
-- is the argument `decode`; `Local::now()` is `now`.
use satel_integra.Common.{
  ℕ, ◌*◌, Bool, not, ◌&&◌, Option, none, some, List, ◌==◌, ltb, if◌then◌else◌, length, get_elem?,
}
use satel_integra.Common.Panics.{◌>>=◌, slice}
use satel_integra.Error.{err, ok, SatelError}
use satel_integra.Parsers.Zones.{frame_data}
use satel_integra.Catalog.Outputs.Control.{control}
use satel_integra.Catalog.Outputs
use Prim.Native.String.{String}
use mathlib.Core.Option
use satel_integra.Parsers.Names.Types.{OutputParams, Answer, with_payload, device_id, word}

-- The duration, in tenths of a second, of an extended answer.
unfoldable pub duration_tenths : Bool → List ℕ → Option (Option ℕ)
duration_tenths extended payload =
    if extended
    then (do high ← get_elem? payload 19; low ← get_elem? payload 20; some (some (word high low)))
    else some none

unfoldable pub output_params : (List ℕ → String) → ℕ → Bool → List ℕ → Answer OutputParams
unfolding duration_tenths
output_params decode now extended payload = do
  number ← get_elem? payload 1
  code ← get_elem? payload 2
  raw ← slice payload 3 19
  duration_ds ← duration_tenths extended payload
  some (
      ok (
        device_id number,
        record { name = decode raw; read_at = now },
        record {
          output_id = device_id number;
          function = Outputs.Codes.from_code code;
          duration = Option.map (λ ds. ds * 100) duration_ds;
          control = control (Outputs.Codes.from_code code) duration_ds;
          read_at = now;
        },
      ))

-- The tests of the type of the device and of the length that it needs.
unfoldable pub output_typed : (List ℕ → String) → ℕ → List ℕ → ℕ → Answer OutputParams
unfolding output_params
output_typed decode now payload dev_type =
    if not (dev_type == 4) && not (dev_type == 17)
    then some (err SatelError.invalid_frame)
    else if (dev_type == 17) && ltb (length payload) 21
    then some (err SatelError.invalid_frame)
    else output_params decode now (dev_type == 17) payload

unfoldable pub output_payload : (List ℕ → String) → ℕ → List ℕ → Answer OutputParams
unfolding output_typed
output_payload decode now payload = get_elem? payload 0 >>= output_typed decode now payload

unfoldable pub process_output_response : (List ℕ → String) → ℕ → List ℕ → Answer OutputParams
unfolding frame_data output_payload
process_output_response decode now frame =
    with_payload (frame_data 0xEE 19 frame) (output_payload decode now)
