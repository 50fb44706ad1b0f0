-- ===== src/Catalog/Partitions/Options.antt =====
-- src/partition_catalog.rs: the options of a partition, two bytes of bits.
use satel_integra.Common.{ℕ, Bool}
use satel_integra.Parsers.Bits.{bit_set}

pub record PartitionOptions : Type 0 where
  pub two_codes_to_arm : Bool
  pub two_codes_to_disarm : Bool
  pub timer_priority : Bool
  pub two_codes_on_two_devices : Bool
  pub alarm_verification : Bool
  pub exit_delay_can_be_shortened : Bool
  pub infinite_exit_delay : Bool
  pub constant_first_code_validity_period : Bool
  pub constant_blocking_time : Bool
  pub do_not_disarm_on_alarm : Bool
  pub auto_arm_can_be_deferred : Bool
  pub raw_byte_1 : ℕ
  pub raw_byte_2 : ℕ

unfoldable pub from_bytes : ℕ → ℕ → PartitionOptions
from_bytes b1 b2 = record {
  two_codes_to_arm = bit_set b1 0;
  two_codes_to_disarm = bit_set b1 1;
  timer_priority = bit_set b1 2;
  two_codes_on_two_devices = bit_set b1 3;
  alarm_verification = bit_set b1 4;
  exit_delay_can_be_shortened = bit_set b1 5;
  infinite_exit_delay = bit_set b1 6;
  constant_first_code_validity_period = bit_set b1 7;
  constant_blocking_time = bit_set b2 0;
  do_not_disarm_on_alarm = bit_set b2 1;
  auto_arm_can_be_deferred = bit_set b2 7;
  raw_byte_1 = b1;
  raw_byte_2 = b2;
}
