-- ===== src/Parsers/Names/Zones.antt =====
-- src/parsers/names.rs: the answers to command 0xEE for zones. `none` is a panic, of an index out of
-- range. `decode_name` stands for the text decoding of encoding_rs and the trimming of a `String`: it
-- is the argument `decode`; `Local::now()` is `now`.
use satel_integra.Common.{
  ℕ, Bool, not, ◌&&◌, Option, none, some, List, ◌==◌, ltb, if◌then◌else◌, length, get_elem?,
}
use satel_integra.Common.Panics.{◌>>=◌, slice}
use satel_integra.Error.{err, ok, SatelError}
use satel_integra.Parsers.Zones.{frame_data}
use satel_integra.Catalog.Zones
use Prim.Native.String.{String}
use mathlib.Core.Option
use satel_integra.Parsers.Names.Types.{ZoneParams, Answer, with_payload, device_id, in_partitions}

unfoldable pub zone_partition : Bool → List ℕ → Option (Option ℕ)
zone_partition extended payload =
    if extended then Option.map in_partitions (get_elem? payload 19) else some none

unfoldable pub zone_params : (List ℕ → String) → ℕ → Bool → List ℕ → Answer ZoneParams
unfolding zone_partition
zone_params decode now extended payload = do
  number ← get_elem? payload 1
  code ← get_elem? payload 2
  raw ← slice payload 3 19
  partition ← zone_partition extended payload
  some (
      ok (
        device_id number,
        record { name = decode raw; read_at = now },
        record {
          zone_id = device_id number;
          reaction = Zones.Codes.from_code code;
          partition = partition;
          read_at = now;
        },
      ))

-- The tests of the type of the device and of the length that it needs.
unfoldable pub zone_typed : (List ℕ → String) → ℕ → List ℕ → ℕ → Answer ZoneParams
unfolding zone_params
zone_typed decode now payload dev_type =
    if not (dev_type == 1) && not (dev_type == 5)
    then some (err SatelError.invalid_frame)
    else if (dev_type == 5) && ltb (length payload) 20
    then some (err SatelError.invalid_frame)
    else zone_params decode now (dev_type == 5) payload

unfoldable pub zone_payload : (List ℕ → String) → ℕ → List ℕ → Answer ZoneParams
unfolding zone_typed
zone_payload decode now payload = get_elem? payload 0 >>= zone_typed decode now payload

unfoldable pub process_zone_response : (List ℕ → String) → ℕ → List ℕ → Answer ZoneParams
unfolding frame_data zone_payload
process_zone_response decode now frame =
    with_payload (frame_data 0xEE 19 frame) (zone_payload decode now)
