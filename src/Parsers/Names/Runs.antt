-- ===== src/Parsers/Names/Runs.antt =====
-- Runs of the parsers of src/parsers/names.rs, and their theorem at a concrete frame.
use satel_integra.Common.{ℕ, ◌≡◌, refl, some, List, [], ◌∷◌, ◌++◌, ◌<◌, All, ◌&◌, arith}
use satel_integra.Error.{ok}
use satel_integra.Parsers.Names.Reads.{IsParsed}
use satel_integra.Parsers.Names.Zones.{process_zone_response}
use satel_integra.Parsers.Names.Outputs.{process_output_response}
use satel_integra.Parsers.Names.Partitions.{process_partition_response}
use satel_integra.Parsers.Names.ZoneReads.{reaction_of, IsSoundZone, zone_lengths}
use satel_integra.Parsers.Names.OutputReads.{function_of, IsSoundOutput, output_lengths}
use satel_integra.Parsers.Names.PartitionReads.{type_of, IsSoundPartition, partition_lengths}
use satel_integra.Parsers.Names.Outcomes.{responses-IsParsed}
use satel_integra.Catalog.Zones.Types.{counting}
use satel_integra.Catalog.Outputs.Types.{telephone_relay}
use satel_integra.Catalog.Outputs.Modes.{timed}
use satel_integra.Catalog.Zones
use satel_integra.Catalog.Outputs
use Prim.Native.String.{String}

abbrev spaces : List ℕ
spaces = 32 ∷ 32 ∷ 32 ∷ 32 ∷ 32 ∷ 32 ∷ 32 ∷ 32 ∷ 32 ∷ 32 ∷ 32 ∷ 32 ∷ 32 ∷ 32 ∷ 32 ∷ 32 ∷ []

abbrev as_text : List ℕ → String
as_text raw = "name"

-- Zone 256, of the reaction Counting L3, in partition 7.
abbrev zone_frame : List ℕ
zone_frame = 0xEE ∷ 5 ∷ 0 ∷ 18 ∷ spaces ++ (7 ∷ [])

-- A telephone relay for 256 + 44 tenths of a second.
abbrev output_frame : List ℕ
output_frame = 0xEE ∷ 17 ∷ 3 ∷ 98 ∷ spaces ++ (1 ∷ 44 ∷ [])

counted_zone :
    process_zone_response as_text 9 zone_frame
    ≡ some (
        ok (
          256,
          record { name = "name"; read_at = 9 },
          record { zone_id = 256; reaction = counting 3; partition = some 7; read_at = 9 },
        ))
counted_zone = unfold process_zone_response Zones.Codes.from_code in refl

timed_relay :
    process_output_response as_text 9 output_frame
    ≡ some (
        ok (
          3,
          record { name = "name"; read_at = 9 },
          record {
            output_id = 3;
            function = telephone_relay;
            duration = some 30000;
            control = timed (some 30000);
            read_at = 9;
          },
        ))
timed_relay =
    unfold process_output_response Outputs.Codes.from_code Outputs.Bytes.code
      Outputs.Control.control in
    refl

counted_bytes : All (λ b. b < 256) zone_frame
counted_bytes =
    omega arith
    & omega arith
    & omega arith
    & omega arith
    & omega arith
    & omega arith
    & omega arith
    & omega arith
    & omega arith
    & omega arith
    & omega arith
    & omega arith
    & omega arith
    & omega arith
    & omega arith
    & omega arith
    & omega arith
    & omega arith
    & omega arith
    & omega arith
    & omega arith
    & tt

responses-IsParsed_example :
    IsParsed as_text 9 reaction_of IsSoundZone zone_lengths zone_frame
      (process_zone_response as_text 9 zone_frame)
    × IsParsed as_text 9 function_of IsSoundOutput output_lengths zone_frame
        (process_output_response as_text 9 zone_frame)
    × IsParsed as_text 9 type_of IsSoundPartition partition_lengths zone_frame
        (process_partition_response as_text 9 zone_frame)
responses-IsParsed_example = responses-IsParsed as_text 9 zone_frame counted_bytes
