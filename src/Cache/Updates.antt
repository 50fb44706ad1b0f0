-- ===== src/Cache/Updates.antt =====
-- The updates of src/client_internal.rs, each at its own slot.
use satel_integra.Common.{Bool, ◌||◌, List}
use satel_integra.State.{Zone, Partition, SatelState}
use satel_integra.Event.{SatelEvent}
use satel_integra.Parsers.Zones.{States}
use satel_integra.Cache.Items.{Slot, update_items}
use satel_integra.Config.{Config}
use satel_integra.Cache.Slots.{
  violation_slot, tamper_slot, alarm_slot, tamper_alarm_slot, alarm_memory_slot,
  tamper_alarm_memory_slot, bypass_slot, no_violation_trouble_slot, long_violation_trouble_slot,
  partition_armed_suppressed_slot, partition_armed_really_slot, partition_alarm_slot,
  partition_alarm_memory_slot, partition_entry_time_slot, partition_exit_time_gt_10s_slot,
  partition_exit_time_lt_10s_slot, output_slot,
}

unfoldable pub update_zones :
    Slot Zone → Config → SatelState → States → Bool → SatelState × List SatelEvent
update_zones slot config state result emit_all =
    let (zones', sent) =
      update_items slot (emit_all || config.emit_unchanged_zones) result.read_at result.states
        state.zones in
    (record state { zones = zones' }, sent)

unfoldable pub update_partitions :
    Slot Partition → Config → SatelState → States → Bool → SatelState × List SatelEvent
update_partitions slot config state result emit_all =
    let (partitions', sent) =
      update_items slot (emit_all || config.emit_unchanged_partitions) result.read_at result.states
        state.partitions in
    (record state { partitions = partitions' }, sent)

unfoldable pub update_zones_violation_internal :
    Config → SatelState → States → Bool → SatelState × List SatelEvent
unfolding update_zones
update_zones_violation_internal = update_zones violation_slot

unfoldable pub update_zones_tamper_internal :
    Config → SatelState → States → Bool → SatelState × List SatelEvent
unfolding update_zones
update_zones_tamper_internal = update_zones tamper_slot

unfoldable pub update_zones_alarm_internal :
    Config → SatelState → States → Bool → SatelState × List SatelEvent
unfolding update_zones
update_zones_alarm_internal = update_zones alarm_slot

unfoldable pub update_zones_tamper_alarm_internal :
    Config → SatelState → States → Bool → SatelState × List SatelEvent
unfolding update_zones
update_zones_tamper_alarm_internal = update_zones tamper_alarm_slot

unfoldable pub update_zones_alarm_memory_internal :
    Config → SatelState → States → Bool → SatelState × List SatelEvent
unfolding update_zones
update_zones_alarm_memory_internal = update_zones alarm_memory_slot

unfoldable pub update_zones_tamper_alarm_memory_internal :
    Config → SatelState → States → Bool → SatelState × List SatelEvent
unfolding update_zones
update_zones_tamper_alarm_memory_internal = update_zones tamper_alarm_memory_slot

unfoldable pub update_zones_bypass_internal :
    Config → SatelState → States → Bool → SatelState × List SatelEvent
unfolding update_zones
update_zones_bypass_internal = update_zones bypass_slot

unfoldable pub update_zones_no_violation_trouble_internal :
    Config → SatelState → States → Bool → SatelState × List SatelEvent
unfolding update_zones
update_zones_no_violation_trouble_internal = update_zones no_violation_trouble_slot

unfoldable pub update_zones_long_violation_trouble_internal :
    Config → SatelState → States → Bool → SatelState × List SatelEvent
unfolding update_zones
update_zones_long_violation_trouble_internal = update_zones long_violation_trouble_slot

unfoldable pub update_partitions_armed_internal :
    Config → SatelState → States → Bool → SatelState × List SatelEvent
unfolding update_partitions
update_partitions_armed_internal = update_partitions partition_armed_suppressed_slot

unfoldable pub update_partitions_armed_really_internal :
    Config → SatelState → States → Bool → SatelState × List SatelEvent
unfolding update_partitions
update_partitions_armed_really_internal = update_partitions partition_armed_really_slot

unfoldable pub update_partitions_alarm_internal :
    Config → SatelState → States → Bool → SatelState × List SatelEvent
unfolding update_partitions
update_partitions_alarm_internal = update_partitions partition_alarm_slot

unfoldable pub update_partitions_alarm_memory_internal :
    Config → SatelState → States → Bool → SatelState × List SatelEvent
unfolding update_partitions
update_partitions_alarm_memory_internal = update_partitions partition_alarm_memory_slot

unfoldable pub update_partitions_entry_time_internal :
    Config → SatelState → States → Bool → SatelState × List SatelEvent
unfolding update_partitions
update_partitions_entry_time_internal = update_partitions partition_entry_time_slot

unfoldable pub update_partitions_exit_time_gt_10s_internal :
    Config → SatelState → States → Bool → SatelState × List SatelEvent
unfolding update_partitions
update_partitions_exit_time_gt_10s_internal = update_partitions partition_exit_time_gt_10s_slot

unfoldable pub update_partitions_exit_time_lt_10s_internal :
    Config → SatelState → States → Bool → SatelState × List SatelEvent
unfolding update_partitions
update_partitions_exit_time_lt_10s_internal = update_partitions partition_exit_time_lt_10s_slot

unfoldable pub update_outputs_state_internal :
    Config → SatelState → States → Bool → SatelState × List SatelEvent
update_outputs_state_internal config state result emit_all =
    let (outputs', sent) =
      update_items output_slot (emit_all || config.emit_unchanged_outputs) result.read_at
        result.states state.outputs in
    (record state { outputs = outputs' }, sent)
