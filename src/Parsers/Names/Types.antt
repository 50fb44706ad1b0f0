-- ===== src/Parsers/Names/Types.antt =====
-- src/state.rs and src/parsers/names.rs: the names and parameters of devices, and what the parsers of
-- the answers to command 0xEE share. `none` is a panic, of an index out of range.
use satel_integra.Common.{
  ℕ, ◌+◌, ◌*◌, ◌^◌, ◌&&◌, Option, none, some, List, ◌==◌, leb, if◌then◌else◌,
}
use satel_integra.Error.{Result, err, ok}
use satel_integra.Catalog.Zones.Types.{ZoneReaction}
use satel_integra.Catalog.Outputs.Types.{OutputFunction}
use satel_integra.Catalog.Outputs.Modes.{OutputControl}
use satel_integra.Catalog.Partitions.Types.{PartitionType}
use satel_integra.Catalog.Partitions.Options.{PartitionOptions}
use satel_integra.Catalog.Partitions.Timer.{AutoArmDeferTimer}
use satel_integra.Catalog.Partitions.Dependent.{DependentPartitions}
use Prim.Native.String.{String}

pub record SatelName : Type 0 where
  pub name : String
  pub read_at : ℕ

pub record ZoneParams : Type 0 where
  pub zone_id : ℕ
  pub reaction : ZoneReaction
  pub partition : Option ℕ
  pub read_at : ℕ

pub record OutputParams : Type 0 where
  pub output_id : ℕ
  pub function : OutputFunction
  pub duration : Option ℕ
  pub control : OutputControl
  pub read_at : ℕ

pub record PartitionParams : Type 0 where
  pub partition_id : ℕ
  pub partition_type : PartitionType
  pub object_number : Option ℕ
  pub options : Option PartitionOptions
  pub auto_arm_defer : Option AutoArmDeferTimer
  pub dependent_partitions : Option DependentPartitions
  pub read_at : ℕ

abbrev pub Answer : Type 0 → Type 0
Answer P = Option (Result (ℕ × SatelName × P))

-- The tests that the three parsers begin with, and then the rest.
abbrev pub with_payload : {P : Type 0} → Result (List ℕ) → (List ℕ → Answer P) → Answer P
with_payload (err reason) rest = some (err reason)
with_payload (ok payload) rest = rest payload

-- `if data[1] == 0 { 256 } else { data[1] as u16 }`
abbrev pub device_id : ℕ → ℕ
device_id number = if number == 0 then 256 else number

abbrev pub in_partitions : ℕ → Option ℕ
in_partitions part_num = if leb 1 part_num && leb part_num 32 then some part_num else none

-- `(high as u16) << 8 | (low as u16)`
abbrev pub word : ℕ → ℕ → ℕ
word high low = high * 2 ^ 8 + low
