-- ===== src/Parsers/Partitions.antt =====
-- src/parsers/partitions.rs: the seven masks of partition states.
use satel_integra.Common.{ℕ, List}
use satel_integra.Error.{Result, ok, ◌>>=◌}
use satel_integra.Parsers.Bits.{parse_partition_bits}
use satel_integra.Parsers.Zones.{States, frame_data}

unfoldable pub partition_mask : ℕ → ℕ → List ℕ → Result States
partition_mask command now frame = do
  payload ← frame_data command 4 frame
  ok (record { states = parse_partition_bits payload; read_at = now })

unfoldable pub process_partitions_armed_suppressed : ℕ → List ℕ → Result States
unfolding partition_mask
process_partitions_armed_suppressed = partition_mask 0x09

unfoldable pub process_partitions_armed_really : ℕ → List ℕ → Result States
unfolding partition_mask
process_partitions_armed_really = partition_mask 0x0A

unfoldable pub process_partitions_entry_time : ℕ → List ℕ → Result States
unfolding partition_mask
process_partitions_entry_time = partition_mask 0x0E

unfoldable pub process_partitions_exit_time_gt_10s : ℕ → List ℕ → Result States
unfolding partition_mask
process_partitions_exit_time_gt_10s = partition_mask 0x0F

unfoldable pub process_partitions_exit_time_lt_10s : ℕ → List ℕ → Result States
unfolding partition_mask
process_partitions_exit_time_lt_10s = partition_mask 0x10

unfoldable pub process_partitions_alarm : ℕ → List ℕ → Result States
unfolding partition_mask
process_partitions_alarm = partition_mask 0x13

unfoldable pub process_partitions_alarm_memory : ℕ → List ℕ → Result States
unfolding partition_mask
process_partitions_alarm_memory = partition_mask 0x15
