-- ===== src/PushHandler.antt =====
-- src/auto_requester.rs, `handle_auto_frame`: the frames with a mask of flags and the result codes.
pub mod Again
pub mod Cached
pub mod Frames
pub mod Followed
pub mod Streams
mod Runs
use satel_integra.Common.{ℕ, Bool, true, false, List, [], ◌∷◌, ◌==◌, if◌then◌else◌}
use satel_integra.Error.{Result, ok, err}
use satel_integra.Command.{SatelResult, result_from_byte}
use satel_integra.Config.{Config}
use satel_integra.State.{SatelState}
use satel_integra.Event.{SatelEvent}
use satel_integra.Parsers.Zones.{
  States, process_zones_violation, process_zones_tamper, process_zones_alarm,
  process_zones_tamper_alarm, process_zones_alarm_memory, process_zones_tamper_alarm_memory,
  process_zones_bypass, process_zones_no_violation_trouble, process_zones_long_violation_trouble,
}
use satel_integra.Parsers.Partitions.{
  process_partitions_armed_suppressed, process_partitions_armed_really, process_partitions_alarm,
  process_partitions_entry_time, process_partitions_exit_time_gt_10s,
  process_partitions_exit_time_lt_10s, process_partitions_alarm_memory,
}
use satel_integra.Parsers.Outputs.{process_outputs_state}
use satel_integra.Cache.Updates.{
  update_zones_violation_internal, update_zones_tamper_internal, update_zones_alarm_internal,
  update_zones_tamper_alarm_internal, update_zones_alarm_memory_internal,
  update_zones_tamper_alarm_memory_internal, update_zones_bypass_internal,
  update_zones_no_violation_trouble_internal, update_zones_long_violation_trouble_internal,
  update_partitions_armed_internal, update_partitions_armed_really_internal,
  update_partitions_alarm_internal, update_partitions_entry_time_internal,
  update_partitions_exit_time_gt_10s_internal, update_partitions_exit_time_lt_10s_internal,
  update_partitions_alarm_memory_internal, update_outputs_state_internal,
}

-- What a frame does to the shared state, given the time of its reading, and the events that it sends.
abbrev pub Handler : Type 0
Handler = ℕ → SatelState → SatelState × List SatelEvent

-- `if let Ok(d) = parse { let _ = update(d, false); }`
unfoldable pub arm :
    (ℕ → Result States) → (SatelState → States → Bool → SatelState × List SatelEvent) → Handler
arm parse update now state = elim (parse now) [ ok d ↦ update state d false | err e ↦ (state, []) ]

abbrev pub ignore : Handler
ignore now state = (state, [])

abbrev pub send_message : ℕ → Handler
send_message code now state = (state, SatelEvent.panel_message (result_from_byte code) ∷ [])

-- `frame.get(1).cloned().unwrap_or(0xFF)`, on what follows the first byte.
abbrev pub code_of : List ℕ → ℕ
code_of [] = 0xFF
code_of (code ∷ rest) = code

abbrev pub result_code : List ℕ → Handler
result_code rest now state =
    let message = send_message (code_of rest) now state in
    if code_of rest == 0xFF then (state, []) else message

abbrev pub choose : Bool → Handler → Handler → Handler
choose b f g now state = let x = f now state in let y = g now state in if b then x else y

-- The arms for masks, then the arm for result codes. The arms for the clock, 0x1A, and for the
-- troubles, which stand between these two, are in PushHandler/Frames.
unfoldable pub handle_mask_frame : Config → List ℕ → Handler
unfolding arm
handle_mask_frame config [] = ignore
handle_mask_frame config (first ∷ rest) =
    let frame = first ∷ rest in
    choose (first == 0x00)
      (arm (λ now. process_zones_violation now frame config.io_violation_invert)
        (update_zones_violation_internal config))
      (choose (first == 0x01)
        (arm (λ now. process_zones_tamper now frame config.io_tamper_invert)
          (update_zones_tamper_internal config))
        (choose (first == 0x02)
          (arm (λ now. process_zones_alarm now frame config.io_alarm_invert)
            (update_zones_alarm_internal config))
          (choose (first == 0x03)
            (arm (λ now. process_zones_tamper_alarm now frame config.io_tamper_alarm_invert)
              (update_zones_tamper_alarm_internal config))
            (choose (first == 0x04)
              (arm (λ now. process_zones_alarm_memory now frame config.io_alarm_memory_invert)
                (update_zones_alarm_memory_internal config))
              (choose (first == 0x05)
                (arm
                  (λ now.
                    process_zones_tamper_alarm_memory now frame
                      config.io_tamper_alarm_memory_invert)
                  (update_zones_tamper_alarm_memory_internal config))
                (choose (first == 0x06)
                  (arm (λ now. process_zones_bypass now frame config.io_bypass_invert)
                    (update_zones_bypass_internal config))
                  (choose (first == 0x07)
                    (arm
                      (λ now.
                        process_zones_no_violation_trouble now frame
                          config.io_no_violation_trouble_invert)
                      (update_zones_no_violation_trouble_internal config))
                    (choose (first == 0x08)
                      (arm
                        (λ now.
                          process_zones_long_violation_trouble now frame
                            config.io_long_violation_trouble_invert)
                        (update_zones_long_violation_trouble_internal config))
                      (choose (first == 0x09)
                        (arm (λ now. process_partitions_armed_suppressed now frame)
                          (update_partitions_armed_internal config))
                        (choose (first == 0x0A)
                          (arm (λ now. process_partitions_armed_really now frame)
                            (update_partitions_armed_really_internal config))
                          (choose (first == 0x13)
                            (arm (λ now. process_partitions_alarm now frame)
                              (update_partitions_alarm_internal config))
                            (choose (first == 0x0E)
                              (arm (λ now. process_partitions_entry_time now frame)
                                (update_partitions_entry_time_internal config))
                              (choose (first == 0x0F)
                                (arm (λ now. process_partitions_exit_time_gt_10s now frame)
                                  (update_partitions_exit_time_gt_10s_internal config))
                                (choose (first == 0x10)
                                  (arm (λ now. process_partitions_exit_time_lt_10s now frame)
                                    (update_partitions_exit_time_lt_10s_internal config))
                                  (choose (first == 0x15)
                                    (arm (λ now. process_partitions_alarm_memory now frame)
                                      (update_partitions_alarm_memory_internal config))
                                    (choose (first == 0x17)
                                      (arm (λ now. process_outputs_state now frame)
                                        (update_outputs_state_internal config))
                                      (choose (first == 0xEF) (result_code rest)
                                        ignore)))))))))))))))))
