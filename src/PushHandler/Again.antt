-- ===== src/PushHandler/Again.antt =====
-- src/auto_requester.rs: a frame that comes again.
use satel_integra.Error.{SatelError}
use satel_integra.Common.{
  ◌⊎◌, ◌∙◌, sym, ℕ, Bool, true, false, List, [], ◌∷◌, ◌≡◌, ◌==◌, refl, ap, inl, inr,
}
use satel_integra.Error.{Result, ok, err, Result-cases}
use satel_integra.Config.{Config}
use satel_integra.State.{SatelState, Zone, Partition}
use satel_integra.Event.{SatelEvent}
use satel_integra.Parsers.Bits.{parse_bit_states, parse_partition_bits, extract_bits}
use satel_integra.Parsers.Zones.{
  States, frame_data, zone_mask, process_zones_violation, process_zones_tamper, process_zones_alarm,
  process_zones_tamper_alarm, process_zones_alarm_memory, process_zones_tamper_alarm_memory,
  process_zones_bypass, process_zones_no_violation_trouble, process_zones_long_violation_trouble,
}
use satel_integra.Parsers.Partitions.{
  partition_mask, process_partitions_armed_suppressed, process_partitions_armed_really,
  process_partitions_alarm, process_partitions_entry_time, process_partitions_exit_time_gt_10s,
  process_partitions_exit_time_lt_10s, process_partitions_alarm_memory,
}
use satel_integra.Parsers.Outputs.{process_outputs_state}
use satel_integra.Cache.Items.{Slot, update_items}
use satel_integra.Cache.Agreement.{IsLawful, update_items_again}
use satel_integra.Cache.Slots.{
  violation_slot, tamper_slot, alarm_slot, tamper_alarm_slot, alarm_memory_slot,
  tamper_alarm_memory_slot, bypass_slot, no_violation_trouble_slot, long_violation_trouble_slot,
  partition_armed_suppressed_slot, partition_armed_really_slot, partition_alarm_slot,
  partition_entry_time_slot, partition_exit_time_gt_10s_slot, partition_exit_time_lt_10s_slot,
  partition_alarm_memory_slot, output_slot,
}
use satel_integra.Cache.Updates.{
  update_zones, update_partitions, update_zones_violation_internal, update_zones_tamper_internal,
  update_zones_alarm_internal, update_zones_tamper_alarm_internal,
  update_zones_alarm_memory_internal, update_zones_tamper_alarm_memory_internal,
  update_zones_bypass_internal, update_zones_no_violation_trouble_internal,
  update_zones_long_violation_trouble_internal, update_partitions_armed_internal,
  update_partitions_armed_really_internal, update_partitions_alarm_internal,
  update_partitions_entry_time_internal, update_partitions_exit_time_gt_10s_internal,
  update_partitions_exit_time_lt_10s_internal, update_partitions_alarm_memory_internal,
  update_outputs_state_internal,
}
use satel_integra.Parsers.Clock.{DateTime}
use satel_integra.PushHandler.Frames.{handle_auto_frame, is_trouble_frame}
use mathlib.Core.Option.{Option, some}
use satel_integra.PushHandler.{Handler, arm, ignore, choose, result_code, handle_mask_frame}

-- A second run changes nothing and sends nothing.
Stable : Handler → Type 0
Stable h = (now later : ℕ) (s : SatelState) → h later (h now s).0 ≡ ((h now s).0, [])

choose-Stable : (b : Bool) (f g : Handler) → Stable f → Stable g → Stable (choose b f g)
unfolding Stable
choose-Stable true f g h k = h
choose-Stable false f g h k = k

abbrev stamped : List Bool → ℕ → States
stamped states now = record { states = states; read_at = now }

-- What a parser makes of a frame does not depend on the clock, but for the time of reading.
abbrev Parses : (ℕ → Result States) → Type 0
Parses parse =
    ((states : List Bool) × ((now : ℕ) → parse now ≡ ok (stamped states now)))
    ⊎ ((e : SatelError) × ((now : ℕ) → parse now ≡ err e))

abbrev Settles : (SatelState → States → Bool → SatelState × List SatelEvent) → Type 0
Settles update =
    (states : List Bool) (now later : ℕ) (s : SatelState)
    → let once = (update s (stamped states now) false).0 in
      update once (stamped states later) false ≡ (once, [])

module _ (parse : ℕ → Result States)
    (update : SatelState → States → Bool → SatelState × List SatelEvent) where
  pub arm-ok :
      (now : ℕ) (s : SatelState) (d : States)
      → parse now ≡ ok d
      → arm parse update now s ≡ update s d false
  unfolding arm
  arm-ok now s d e = rw (e, arm)

  pub arm-err :
      (now : ℕ) (s : SatelState) (x : SatelError)
      → parse now ≡ err x
      → arm parse update now s ≡ (s, [])
  unfolding arm
  arm-err now s x e = rw (e, arm)

  arm-Stable : Parses parse → Settles update → Stable (arm parse update)
  unfolding Stable
  arm-Stable (inl (states, p)) u now later s =
      let q = arm-ok now s (stamped states now) (p now) in
      let once = (update s (stamped states now) false).0 in
      ap (λ x. arm parse update later x.0) q
      ∙ (arm-ok later once (stamped states later) (p later)
          ∙ (u states now later s ∙ sym (ap (λ x. (x.0, [])) q)))
  arm-Stable (inr (x, p)) u now later s =
      let q = arm-err now s x (p now) in
      ap (λ y. arm parse update later y.0) q
      ∙ (arm-err later s x (p later) ∙ sym (ap (λ y. (y.0, [])) q))

zone_mask-Parses :
    (command : ℕ) (frame inverts : List ℕ) → Parses (λ now. zone_mask command now frame inverts)
unfolding zone_mask
zone_mask-Parses command frame inverts = elim (Result-cases (frame_data command 16 frame)) [
  | inl (payload, e) ↦ inl (parse_bit_states payload inverts, λ now. rw e)
  | inr (x, e) ↦ inr (x, λ now. rw e)
]

partition_mask-Parses :
    (command : ℕ) (frame : List ℕ) → Parses (λ now. partition_mask command now frame)
unfolding partition_mask
partition_mask-Parses command frame = elim (Result-cases (frame_data command 4 frame)) [
  | inl (payload, e) ↦ inl (parse_partition_bits payload, λ now. rw e)
  | inr (x, e) ↦ inr (x, λ now. rw e)
]

outputs-Parses : (frame : List ℕ) → Parses (λ now. process_outputs_state now frame)
unfolding process_outputs_state
outputs-Parses frame = elim (Result-cases (frame_data 0x17 16 frame)) [
  | inl (payload, e) ↦ inl (extract_bits payload, λ now. rw e)
  | inr (x, e) ↦ inr (x, λ now. rw e)
]

module _ (config : Config) where
  zones-Settles :
      (slot : Slot Zone)
      → IsLawful slot
      → config.emit_unchanged_zones ≡ false
      → Settles (update_zones slot config)
  unfolding update_zones
  zones-Settles slot lawful quiet states now later s =
      let emit = config.emit_unchanged_zones in
      let once = (update_items slot emit now states s.zones).0 in
      let u = update_items_again slot lawful emit now later states s.zones in
      ap (λ x. (record s { zones = x.0 }, x.1))
        (ap (λ b. update_items slot b later states once) quiet ∙ u)

  partitions-Settles :
      (slot : Slot Partition)
      → IsLawful slot
      → config.emit_unchanged_partitions ≡ false
      → Settles (update_partitions slot config)
  unfolding update_partitions
  partitions-Settles slot lawful quiet states now later s =
      let emit = config.emit_unchanged_partitions in
      let once = (update_items slot emit now states s.partitions).0 in
      let u = update_items_again slot lawful emit now later states s.partitions in
      ap (λ x. (record s { partitions = x.0 }, x.1))
        (ap (λ b. update_items slot b later states once) quiet ∙ u)

  outputs-Settles :
      config.emit_unchanged_outputs ≡ false → Settles (update_outputs_state_internal config)
  unfolding update_outputs_state_internal
  outputs-Settles quiet states now later s =
      let emit = config.emit_unchanged_outputs in
      let lawful : IsLawful output_slot = record { cell-put = λ c a. refl; id-put = λ c a. refl } in
      let once = (update_items output_slot emit now states s.outputs).0 in
      let u = update_items_again output_slot lawful emit now later states s.outputs in
      ap (λ x. (record s { outputs = x.0 }, x.1))
        (ap (λ b. update_items output_slot b later states once) quiet ∙ u)

module _ (config : Config) (quiet_zones : config.emit_unchanged_zones ≡ false)
    (quiet_partitions : config.emit_unchanged_partitions ≡ false)
    (quiet_outputs : config.emit_unchanged_outputs ≡ false) where
  zone-Stable :
      (slot : Slot Zone) (command : ℕ) (frame inverts : List ℕ)
      → IsLawful slot
      → Stable (arm (λ n. zone_mask command n frame inverts) (update_zones slot config))
  zone-Stable slot command frame inverts lawful =
      arm-Stable (λ n. zone_mask command n frame inverts) (update_zones slot config)
        (zone_mask-Parses command frame inverts) (zones-Settles config slot lawful quiet_zones)

  partition-Stable :
      (slot : Slot Partition) (command : ℕ) (frame : List ℕ)
      → IsLawful slot
      → Stable (arm (λ n. partition_mask command n frame) (update_partitions slot config))
  partition-Stable slot command frame lawful =
      arm-Stable (λ n. partition_mask command n frame) (update_partitions slot config)
        (partition_mask-Parses command frame)
        (partitions-Settles config slot lawful quiet_partitions)

  output-Stable :
      (frame : List ℕ)
      → Stable (arm (λ n. process_outputs_state n frame) (update_outputs_state_internal config))
  output-Stable frame =
      arm-Stable (λ n. process_outputs_state n frame) (update_outputs_state_internal config)
        (outputs-Parses frame) (outputs-Settles config quiet_outputs)

  last-Stable :
      (first : ℕ) (rest : List ℕ)
      → first == 0xEF ≡ false
      → Stable (choose (first == 0xEF) (result_code rest) ignore)
  unfolding Stable
  last-Stable first rest e now later s = rw e

  handle_mask_frame-Stable :
      (first : ℕ) (rest : List ℕ)
      → first == 0xEF ≡ false
      → Stable (handle_mask_frame config (first ∷ rest))
  unfolding handle_mask_frame process_zones_violation process_zones_tamper process_zones_alarm
      process_zones_tamper_alarm process_zones_alarm_memory process_zones_tamper_alarm_memory
      process_zones_bypass process_zones_no_violation_trouble process_zones_long_violation_trouble
      process_partitions_armed_suppressed process_partitions_armed_really process_partitions_alarm
      process_partitions_entry_time process_partitions_exit_time_gt_10s
      process_partitions_exit_time_lt_10s process_partitions_alarm_memory
      update_zones_violation_internal update_zones_tamper_internal update_zones_alarm_internal
      update_zones_tamper_alarm_internal update_zones_alarm_memory_internal
      update_zones_tamper_alarm_memory_internal update_zones_bypass_internal
      update_zones_no_violation_trouble_internal update_zones_long_violation_trouble_internal
      update_partitions_armed_internal update_partitions_armed_really_internal
      update_partitions_alarm_internal update_partitions_entry_time_internal
      update_partitions_exit_time_gt_10s_internal update_partitions_exit_time_lt_10s_internal
      update_partitions_alarm_memory_internal
  handle_mask_frame-Stable first rest e =
      let frame = first ∷ rest in
      choose-Stable (first == 0x00) _ _
        (zone-Stable violation_slot 0x00 frame config.io_violation_invert
          (record { cell-put = λ c a. refl; id-put = λ c a. refl }))
        (choose-Stable (first == 0x01) _ _
          (zone-Stable tamper_slot 0x01 frame config.io_tamper_invert
            (record { cell-put = λ c a. refl; id-put = λ c a. refl }))
          (choose-Stable (first == 0x02) _ _
            (zone-Stable alarm_slot 0x02 frame config.io_alarm_invert
              (record { cell-put = λ c a. refl; id-put = λ c a. refl }))
            (choose-Stable (first == 0x03) _ _
              (zone-Stable tamper_alarm_slot 0x03 frame config.io_tamper_alarm_invert
                (record { cell-put = λ c a. refl; id-put = λ c a. refl }))
              (choose-Stable (first == 0x04) _ _
                (zone-Stable alarm_memory_slot 0x04 frame config.io_alarm_memory_invert
                  (record { cell-put = λ c a. refl; id-put = λ c a. refl }))
                (choose-Stable (first == 0x05) _ _
                  (zone-Stable tamper_alarm_memory_slot 0x05 frame
                    config.io_tamper_alarm_memory_invert
                    (record { cell-put = λ c a. refl; id-put = λ c a. refl }))
                  (choose-Stable (first == 0x06) _ _
                    (zone-Stable bypass_slot 0x06 frame config.io_bypass_invert
                      (record { cell-put = λ c a. refl; id-put = λ c a. refl }))
                    (choose-Stable (first == 0x07) _ _
                      (zone-Stable no_violation_trouble_slot 0x07 frame
                        config.io_no_violation_trouble_invert
                        (record { cell-put = λ c a. refl; id-put = λ c a. refl }))
                      (choose-Stable (first == 0x08) _ _
                        (zone-Stable long_violation_trouble_slot 0x08 frame
                          config.io_long_violation_trouble_invert
                          (record { cell-put = λ c a. refl; id-put = λ c a. refl }))
                        (choose-Stable (first == 0x09) _ _
                          (partition-Stable partition_armed_suppressed_slot 0x09 frame
                            (record { cell-put = λ c a. refl; id-put = λ c a. refl }))
                          (choose-Stable (first == 0x0A) _ _
                            (partition-Stable partition_armed_really_slot 0x0A frame
                              (record { cell-put = λ c a. refl; id-put = λ c a. refl }))
                            (choose-Stable (first == 0x13) _ _
                              (partition-Stable partition_alarm_slot 0x13 frame
                                (record { cell-put = λ c a. refl; id-put = λ c a. refl }))
                              (choose-Stable (first == 0x0E) _ _
                                (partition-Stable partition_entry_time_slot 0x0E frame
                                  (record { cell-put = λ c a. refl; id-put = λ c a. refl }))
                                (choose-Stable (first == 0x0F) _ _
                                  (partition-Stable partition_exit_time_gt_10s_slot 0x0F frame
                                    (record { cell-put = λ c a. refl; id-put = λ c a. refl }))
                                  (choose-Stable (first == 0x10) _ _
                                    (partition-Stable partition_exit_time_lt_10s_slot 0x10 frame
                                      (record { cell-put = λ c a. refl; id-put = λ c a. refl }))
                                    (choose-Stable (first == 0x15) _ _
                                      (partition-Stable partition_alarm_memory_slot 0x15 frame
                                        (record { cell-put = λ c a. refl; id-put = λ c a. refl }))
                                      (choose-Stable (first == 0x17) _ _ (output-Stable frame)
                                        (last-Stable first rest e)))))))))))))))))

handle_mask_frame-again :
    (config : Config) (first : ℕ) (rest : List ℕ) (now later : ℕ) (s : SatelState)
    → config.emit_unchanged_zones ≡ false
    → config.emit_unchanged_partitions ≡ false
    → config.emit_unchanged_outputs ≡ false
    → first == 0xEF ≡ false
    → let once = (handle_mask_frame config (first ∷ rest) now s).0 in
      handle_mask_frame config (first ∷ rest) later once ≡ (once, [])
unfolding Stable
handle_mask_frame-again config first rest now later s quiet_zones quiet_partitions quiet_outputs e =
    handle_mask_frame-Stable config quiet_zones quiet_partitions quiet_outputs first rest e now
      later s

-- A frame that is neither about the clock nor about troubles nor a result code, such as a mask of flags
-- is, changes nothing in the cache and sends no event when it comes a second time, at whatever time, if
-- unchanged flags of zones, partitions and outputs are not to be sent.
pub handle_auto_frame-again :
    (single : DateTime → Option ℕ) (config : Config) (first : ℕ) (rest : List ℕ) (now later : ℕ)
    (s : SatelState)
    → config.emit_unchanged_zones ≡ false
    → config.emit_unchanged_partitions ≡ false
    → config.emit_unchanged_outputs ≡ false
    → first == 0x1A ≡ false
    → is_trouble_frame first ≡ false
    → first == 0xEF ≡ false
    → (once : SatelState × List SatelEvent) × (handle_auto_frame single config (first ∷ rest) now s
        ≡ some once)
      × (handle_auto_frame single config (first ∷ rest) later once.0 ≡ some (once.0, []))
unfolding handle_auto_frame
handle_auto_frame-again single config first rest now later s zones partitions outputs clock troubles
      code =
    let again =
      handle_mask_frame-again config first rest now later s zones partitions outputs code in
    (
      handle_mask_frame config (first ∷ rest) now s,
      rw (clock, troubles) refl,
      rw (clock, troubles, again) refl,
    )
