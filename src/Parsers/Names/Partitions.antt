-- ===== src/Parsers/Names/Partitions.antt =====
-- src/parsers/names.rs: the answers to command 0xEE for partitions. `none` is a panic, of an index out of
-- range. `decode_name` stands for the text decoding of encoding_rs and the trimming of a `String`: it
-- is the argument `decode`; `Local::now()` is `now`.
use satel_integra.Common.{
  ℕ, Bool, not, ◌&&◌, ◌||◌, Option, none, some, List, ◌==◌, ltb, leb, if◌then◌else◌, length,
  get_elem?,
}
use satel_integra.Common.Panics.{◌>>=◌, slice}
use satel_integra.Error.{err, ok, SatelError}
use satel_integra.Parsers.Zones.{frame_data}
use satel_integra.Catalog.Partitions.Types.{PartitionType}
use satel_integra.Catalog.Partitions.Options.{PartitionOptions}
use satel_integra.Catalog.Partitions.Timer.{AutoArmDeferTimer, from_raw}
use satel_integra.Catalog.Partitions.Dependent.{DependentPartitions}
use satel_integra.Catalog.Partitions
use Prim.Native.String.{String}
use mathlib.Core.Option
use satel_integra.Parsers.Names.Types.{PartitionParams, Answer, with_payload, word}

unfoldable pub object_number : ℕ → List ℕ → Option (Option ℕ)
object_number dev_type payload =
    if leb 16 dev_type then Option.map (λ n. some n) (get_elem? payload 19) else some none

unfoldable pub options_and_defer :
    ℕ → List ℕ → Option (Option PartitionOptions × Option AutoArmDeferTimer)
options_and_defer dev_type payload =
    if leb 18 dev_type
    then (do
      b1 ← get_elem? payload 20
      b2 ← get_elem? payload 21
      high ← get_elem? payload 22
      low ← get_elem? payload 23
      some ((some (Partitions.Options.from_bytes b1 b2), some (from_raw (word high low)))))
    else some ((none, none))

unfoldable pub dependent_of : ℕ → List ℕ → Option (Option DependentPartitions)
dependent_of dev_type payload =
    if dev_type == 19
    then (do
      b0 ← get_elem? payload 24
      b1 ← get_elem? payload 25
      b2 ← get_elem? payload 26
      b3 ← get_elem? payload 27
      some (some (Partitions.Dependent.from_bytes b0 b1 b2 b3)))
    else some none

unfoldable pub partition_params : (List ℕ → String) → ℕ → ℕ → List ℕ → Answer PartitionParams
unfolding object_number options_and_defer dependent_of
partition_params decode now dev_type payload = do
  id ← get_elem? payload 1
  code ← get_elem? payload 2
  raw ← slice payload 3 19
  number ← object_number dev_type payload
  later ← options_and_defer dev_type payload
  dependent ← dependent_of dev_type payload
  some (
      ok (
        id,
        record { name = decode raw; read_at = now },
        record {
          partition_id = id;
          partition_type = Partitions.Types.from_code code;
          object_number = number;
          options = later.0;
          auto_arm_defer = later.1;
          dependent_partitions = dependent;
          read_at = now;
        },
      ))

unfoldable pub is_partition_type : ℕ → Bool
is_partition_type dev_type =
    (dev_type == 0) || (dev_type == 16) || (dev_type == 18) || (dev_type == 19)

-- The tests of the type of the device and of the length that it needs.
unfoldable pub partition_typed : (List ℕ → String) → ℕ → List ℕ → ℕ → Answer PartitionParams
unfolding partition_params is_partition_type
partition_typed decode now payload dev_type =
    if not (is_partition_type dev_type)
    then some (err SatelError.invalid_frame)
    else if (dev_type == 16) && ltb (length payload) 20
    then some (err SatelError.invalid_frame)
    else if (dev_type == 18) && ltb (length payload) 24
    then some (err SatelError.invalid_frame)
    else if (dev_type == 19) && ltb (length payload) 28
    then some (err SatelError.invalid_frame)
    else partition_params decode now dev_type payload

unfoldable pub partition_payload : (List ℕ → String) → ℕ → List ℕ → Answer PartitionParams
unfolding partition_typed
partition_payload decode now payload = get_elem? payload 0 >>= partition_typed decode now payload

unfoldable pub process_partition_response : (List ℕ → String) → ℕ → List ℕ → Answer PartitionParams
unfolding frame_data partition_payload
process_partition_response decode now frame =
    with_payload (frame_data 0xEE 19 frame) (partition_payload decode now)
