-- ===== src/Catalog/Partitions/Timer.antt =====
-- src/partition_catalog.rs: the timer that defers automatic arming.
use satel_integra.Common.{ℕ, ◌/◌, ◌%◌, ◌^◌, ◌==◌, if◌then◌else◌}

pub data AutoArmDeferStatus : Type 0 where
  inactive set running : AutoArmDeferStatus
  unknown : ℕ → AutoArmDeferStatus

pub record AutoArmDeferTimer : Type 0 where
  pub status : AutoArmDeferStatus
  pub defer_time_s : ℕ
  pub raw : ℕ

-- `raw >> 14` and `raw & 0x3FFF`.
unfoldable pub from_raw : ℕ → AutoArmDeferTimer
from_raw raw =
    let status_bits = raw / 2 ^ 14 % 2 ^ 8 in
    record {
      status =
          if status_bits == 0
          then inactive
          else if status_bits == 1
          then set
          else if status_bits == 2
          then running
          else unknown status_bits;
      defer_time_s = raw % 2 ^ 14;
      raw = raw;
    }
