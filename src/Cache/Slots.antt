-- ===== src/Cache/Slots.antt =====
-- The fields and the event that each update of src/client_internal.rs names.
use satel_integra.State.{Zone, Partition, Output}
use satel_integra.Event.{SatelEvent}
use satel_integra.Cache.Items.{Slot}

abbrev pub violation_slot : Slot Zone
violation_slot = record {
  cell = λ z. z.violation;
  put = λ c z. record z { violation = c };
  id = λ z. z.id;
  event = SatelEvent.zone_violation;
}

abbrev pub tamper_slot : Slot Zone
tamper_slot = record {
  cell = λ z. z.tamper;
  put = λ c z. record z { tamper = c };
  id = λ z. z.id;
  event = SatelEvent.zone_tamper;
}

abbrev pub alarm_slot : Slot Zone
alarm_slot = record {
  cell = λ z. z.alarm;
  put = λ c z. record z { alarm = c };
  id = λ z. z.id;
  event = SatelEvent.zone_alarm;
}

abbrev pub tamper_alarm_slot : Slot Zone
tamper_alarm_slot = record {
  cell = λ z. z.tamper_alarm;
  put = λ c z. record z { tamper_alarm = c };
  id = λ z. z.id;
  event = SatelEvent.zone_tamper_alarm;
}

abbrev pub alarm_memory_slot : Slot Zone
alarm_memory_slot = record {
  cell = λ z. z.alarm_memory;
  put = λ c z. record z { alarm_memory = c };
  id = λ z. z.id;
  event = SatelEvent.zone_alarm_memory;
}

abbrev pub tamper_alarm_memory_slot : Slot Zone
tamper_alarm_memory_slot = record {
  cell = λ z. z.tamper_alarm_memory;
  put = λ c z. record z { tamper_alarm_memory = c };
  id = λ z. z.id;
  event = SatelEvent.zone_tamper_alarm_memory;
}

abbrev pub bypass_slot : Slot Zone
bypass_slot = record {
  cell = λ z. z.bypass;
  put = λ c z. record z { bypass = c };
  id = λ z. z.id;
  event = SatelEvent.zone_bypass;
}

abbrev pub no_violation_trouble_slot : Slot Zone
no_violation_trouble_slot = record {
  cell = λ z. z.no_violation_trouble;
  put = λ c z. record z { no_violation_trouble = c };
  id = λ z. z.id;
  event = SatelEvent.zone_no_violation_trouble;
}

abbrev pub long_violation_trouble_slot : Slot Zone
long_violation_trouble_slot = record {
  cell = λ z. z.long_violation_trouble;
  put = λ c z. record z { long_violation_trouble = c };
  id = λ z. z.id;
  event = SatelEvent.zone_long_violation_trouble;
}

abbrev pub partition_armed_suppressed_slot : Slot Partition
partition_armed_suppressed_slot = record {
  cell = λ p. p.armed_suppressed;
  put = λ c p. record p { armed_suppressed = c };
  id = λ p. p.id;
  event = SatelEvent.partition_armed;
}

abbrev pub partition_armed_really_slot : Slot Partition
partition_armed_really_slot = record {
  cell = λ p. p.armed_really;
  put = λ c p. record p { armed_really = c };
  id = λ p. p.id;
  event = SatelEvent.partition_armed_really;
}

abbrev pub partition_alarm_slot : Slot Partition
partition_alarm_slot = record {
  cell = λ p. p.alarm;
  put = λ c p. record p { alarm = c };
  id = λ p. p.id;
  event = SatelEvent.partition_alarm;
}

abbrev pub partition_alarm_memory_slot : Slot Partition
partition_alarm_memory_slot = record {
  cell = λ p. p.alarm_memory;
  put = λ c p. record p { alarm_memory = c };
  id = λ p. p.id;
  event = SatelEvent.partition_alarm_memory;
}

abbrev pub partition_entry_time_slot : Slot Partition
partition_entry_time_slot = record {
  cell = λ p. p.entry_time;
  put = λ c p. record p { entry_time = c };
  id = λ p. p.id;
  event = SatelEvent.partition_entry_time;
}

abbrev pub partition_exit_time_gt_10s_slot : Slot Partition
partition_exit_time_gt_10s_slot = record {
  cell = λ p. p.exit_time_gt_10s;
  put = λ c p. record p { exit_time_gt_10s = c };
  id = λ p. p.id;
  event = SatelEvent.partition_exit_time_gt_10s;
}

abbrev pub partition_exit_time_lt_10s_slot : Slot Partition
partition_exit_time_lt_10s_slot = record {
  cell = λ p. p.exit_time_lt_10s;
  put = λ c p. record p { exit_time_lt_10s = c };
  id = λ p. p.id;
  event = SatelEvent.partition_exit_time_lt_10s;
}

abbrev pub output_slot : Slot Output
output_slot = record {
  cell = λ o. o.output;
  put = λ c o. record o { output = c };
  id = λ o. o.id;
  event = SatelEvent.output_changed;
}
