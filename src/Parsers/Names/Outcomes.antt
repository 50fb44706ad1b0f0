-- ===== src/Parsers/Names/Outcomes.antt =====
-- src/parsers/names.rs: the three parsers on every frame.
use satel_integra.Common.{ℕ, List, ◌<◌, All}
use satel_integra.Parsers.Names.Reads.{IsParsed}
use satel_integra.Parsers.Names.Zones.{process_zone_response}
use satel_integra.Parsers.Names.Outputs.{process_output_response}
use satel_integra.Parsers.Names.Partitions.{process_partition_response}
use satel_integra.Parsers.Names.ZoneReads.{
  reaction_of, IsSoundZone, zone_lengths, process_zone_response-IsParsed,
}
use satel_integra.Parsers.Names.OutputReads.{
  function_of, IsSoundOutput, output_lengths, process_output_response-IsParsed,
}
use satel_integra.Parsers.Names.PartitionReads.{
  type_of, IsSoundPartition, partition_lengths, process_partition_response-IsParsed,
}
use Prim.Native.String.{String}

-- On any frame of bytes, each of the parsers of zones, outputs and partitions does not panic. It reads
-- the frame if this starts with 0xEE and is as long as its type of device needs, and refuses it as
-- invalid if not. The device that it reads has the name and the code that stand in the frame, and its
-- number: for zones and outputs a number from 1 to 256, with 0 for 256, for partitions the byte itself.
-- Its parameters are sound: a zone's partition is from 1 to 32, an output can be controlled exactly if
-- its function can, and a partition's timer has 14 bits.
pub responses-IsParsed :
    (decode : List ℕ → String) (now : ℕ) (frame : List ℕ)
    → All (λ b. b < 256) frame
    → IsParsed decode now reaction_of IsSoundZone zone_lengths frame
        (process_zone_response decode now frame)
      × IsParsed decode now function_of IsSoundOutput output_lengths frame
          (process_output_response decode now frame)
      × IsParsed decode now type_of IsSoundPartition partition_lengths frame
          (process_partition_response decode now frame)
responses-IsParsed decode now frame bytes = (
  process_zone_response-IsParsed decode now frame bytes,
  process_output_response-IsParsed decode now frame bytes,
  process_partition_response-IsParsed decode now frame bytes,
)
