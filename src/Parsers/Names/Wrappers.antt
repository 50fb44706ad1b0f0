-- ===== src/Parsers/Names/Wrappers.antt =====
-- src/parsers/names.rs: the parsers of the names alone and of the parameters alone.
use satel_integra.Common.{ℕ, Option, List}
use satel_integra.Error.{Result, err, ok}
use Prim.Native.String.{String}
use mathlib.Core.Option
use satel_integra.Parsers.Names.Types.{SatelName, ZoneParams, OutputParams, PartitionParams}
use satel_integra.Parsers.Names.Zones.{process_zone_response}
use satel_integra.Parsers.Names.Outputs.{process_output_response}
use satel_integra.Parsers.Names.Partitions.{process_partition_response}

abbrev pub named : {P : Type 0} → Result (ℕ × SatelName × P) → Result (ℕ × SatelName)
named (err reason) = err reason
named (ok (id, name, params)) = ok (id, name)

abbrev pub described : {P : Type 0} → Result (ℕ × SatelName × P) → Result (ℕ × P)
described (err reason) = err reason
described (ok (id, name, params)) = ok (id, params)

unfoldable pub process_partition_name :
    (List ℕ → String) → ℕ → List ℕ → Option (Result (ℕ × SatelName))
unfolding process_partition_response
process_partition_name decode now frame =
    Option.map named (process_partition_response decode now frame)

unfoldable pub process_zone_name : (List ℕ → String) → ℕ → List ℕ → Option (Result (ℕ × SatelName))
unfolding process_zone_response
process_zone_name decode now frame = Option.map named (process_zone_response decode now frame)

unfoldable pub process_output_name :
    (List ℕ → String) → ℕ → List ℕ → Option (Result (ℕ × SatelName))
unfolding process_output_response
process_output_name decode now frame = Option.map named (process_output_response decode now frame)

unfoldable pub process_zone_params :
    (List ℕ → String) → ℕ → List ℕ → Option (Result (ℕ × ZoneParams))
unfolding process_zone_response
process_zone_params decode now frame = Option.map described (process_zone_response decode now frame)

unfoldable pub process_output_params :
    (List ℕ → String) → ℕ → List ℕ → Option (Result (ℕ × OutputParams))
unfolding process_output_response
process_output_params decode now frame =
    Option.map described (process_output_response decode now frame)

unfoldable pub process_partition_params :
    (List ℕ → String) → ℕ → List ℕ → Option (Result (ℕ × PartitionParams))
unfolding process_partition_response
process_partition_params decode now frame =
    Option.map described (process_partition_response decode now frame)
