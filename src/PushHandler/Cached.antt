-- ===== src/PushHandler/Cached.antt =====
-- src/auto_requester.rs: from a frame about zones to the cached flags.
use satel_integra.Parsers.Zones.{IsMaskOf}
use satel_integra.Common.{
  ℕ, ◌*◌, ◌^◌, ◌≤◌, ◌<◌, ◌≡◌, List, [], ◌∷◌, length, get_elem?, All, refl, arith, ap, ◌∙◌,
}
use satel_integra.Error.{ok}
use satel_integra.Config.{Config}
use satel_integra.State.{SatelState, Zone}
use satel_integra.Parsers.Bits.{
  parse_bit_states, flag_at, get_elem?-parse_bit_states, length-parse_bit_states,
}
use satel_integra.Parsers.Zones.{
  States, frame_data, frame_data_iff, zone_mask, process_zones_violation, process_zones_tamper,
  process_zones_alarm, process_zones_tamper_alarm, process_zones_alarm_memory,
  process_zones_tamper_alarm_memory, process_zones_bypass, process_zones_no_violation_trouble,
  process_zones_long_violation_trouble,
}
use satel_integra.Cache.Items.{Slot}
use satel_integra.Cache.Agreement.{IsLawful, update_items_states}
use satel_integra.Cache.Slots.{
  violation_slot, tamper_slot, alarm_slot, tamper_alarm_slot, alarm_memory_slot,
  tamper_alarm_memory_slot, bypass_slot, no_violation_trouble_slot, long_violation_trouble_slot,
}
use satel_integra.Cache.Updates.{
  update_zones, update_zones_violation_internal, update_zones_tamper_internal,
  update_zones_alarm_internal, update_zones_tamper_alarm_internal,
  update_zones_alarm_memory_internal, update_zones_tamper_alarm_memory_internal,
  update_zones_bypass_internal, update_zones_no_violation_trouble_internal,
  update_zones_long_violation_trouble_internal,
}
use satel_integra.PushHandler.{arm, handle_mask_frame}
use satel_integra.PushHandler.Again.{arm-ok}
use mathlib.Core.Option

-- The frames about zones: the command, the cached flag, and the list of the zones to be inverted.
abbrev pub zone_frames : Config → List (ℕ × Slot Zone × List ℕ)
zone_frames c =
    (0x00, violation_slot, c.io_violation_invert)
    ∷ (0x01, tamper_slot, c.io_tamper_invert)
    ∷ (0x02, alarm_slot, c.io_alarm_invert)
    ∷ (0x03, tamper_alarm_slot, c.io_tamper_alarm_invert)
    ∷ (0x04, alarm_memory_slot, c.io_alarm_memory_invert)
    ∷ (0x05, tamper_alarm_memory_slot, c.io_tamper_alarm_memory_invert)
    ∷ (0x06, bypass_slot, c.io_bypass_invert)
    ∷ (0x07, no_violation_trouble_slot, c.io_no_violation_trouble_invert)
    ∷ (0x08, long_violation_trouble_slot, c.io_long_violation_trouble_invert)
    ∷ []

module _ (config : Config) (payload : List ℕ) (now : ℕ) (s : SatelState) (i : ℕ)
    (long : 16 ≤ length payload) (short : 8 * length payload < 2 ^ 16)
    (covered : i < 8 * length payload) (known : i < length s.zones) where
  arm-cached :
      (slot : Slot Zone) (command : ℕ) (inverts : List ℕ)
      → IsLawful slot
      → Option.map
          (λ z. (slot.cell z).state)
          (get_elem?
            (arm
              (λ n. zone_mask command n (command ∷ payload) inverts)
              (update_zones slot config)
              now
              s).0.zones
            i)
        ≡ flag_at inverts payload i
  unfolding zone_mask update_zones IsMaskOf
  arm-cached slot command inverts lawful =
      let e : frame_data command 16 (command ∷ payload) ≡ ok payload =
        (frame_data_iff command 16 (command ∷ payload) payload).0.1 (refl, long) in
      let states = parse_bit_states payload inverts in
      let d : States = record { states = states; read_at = now } in
      let p : zone_mask command now (command ∷ payload) inverts ≡ ok d = rw e in
      let q =
        arm-ok (λ n. zone_mask command n (command ∷ payload) inverts) (update_zones slot config) now
          s d p in
      let l = length-parse_bit_states payload inverts in
      let u =
        update_items_states slot lawful config.emit_unchanged_zones now states s.zones i
          (omega arith) known in
      let g = get_elem?-parse_bit_states payload inverts i short in
      ap (λ x. Option.map (λ z. (slot.cell z).state) (get_elem? x.0.zones i)) q ∙ (u ∙ g)

  -- After a frame about zones of the command and at least 16 bytes, each cached zone that the frame
  -- covers has the flag of that command equal to its bit in the frame, turned round exactly if the
  -- configuration lists the zone for inversion; for each of the nine commands, whatever the cache
  -- held before, and for masks whose zone numbers fit sixteen bits.
  pub handle_mask_frame-cached :
      All
        (λ (row : ℕ × Slot Zone × List ℕ).
          Option.map
            (λ z. (row.1.cell z).state)
            (get_elem? (handle_mask_frame config (row.0 ∷ payload) now s).0.zones i)
          ≡ flag_at row.2 payload i)
        (zone_frames config)
  unfolding handle_mask_frame process_zones_violation process_zones_tamper process_zones_alarm
      process_zones_tamper_alarm process_zones_alarm_memory process_zones_tamper_alarm_memory
      process_zones_bypass process_zones_no_violation_trouble process_zones_long_violation_trouble
      update_zones_violation_internal update_zones_tamper_internal update_zones_alarm_internal
      update_zones_tamper_alarm_internal update_zones_alarm_memory_internal
      update_zones_tamper_alarm_memory_internal update_zones_bypass_internal
      update_zones_no_violation_trouble_internal update_zones_long_violation_trouble_internal
  handle_mask_frame-cached = (
    arm-cached violation_slot 0x00 config.io_violation_invert
        (record { cell-put = λ c a. refl; id-put = λ c a. refl }),
    (
      arm-cached tamper_slot 0x01 config.io_tamper_invert
          (record { cell-put = λ c a. refl; id-put = λ c a. refl }),
      (
        arm-cached alarm_slot 0x02 config.io_alarm_invert
            (record { cell-put = λ c a. refl; id-put = λ c a. refl }),
        (
          arm-cached tamper_alarm_slot 0x03 config.io_tamper_alarm_invert
              (record { cell-put = λ c a. refl; id-put = λ c a. refl }),
          (
            arm-cached alarm_memory_slot 0x04 config.io_alarm_memory_invert
                (record { cell-put = λ c a. refl; id-put = λ c a. refl }),
            (
              arm-cached tamper_alarm_memory_slot 0x05 config.io_tamper_alarm_memory_invert
                  (record { cell-put = λ c a. refl; id-put = λ c a. refl }),
              (
                arm-cached bypass_slot 0x06 config.io_bypass_invert
                    (record { cell-put = λ c a. refl; id-put = λ c a. refl }),
                (
                  arm-cached no_violation_trouble_slot 0x07 config.io_no_violation_trouble_invert
                      (record { cell-put = λ c a. refl; id-put = λ c a. refl }),
                  (
                    arm-cached long_violation_trouble_slot 0x08
                        config.io_long_violation_trouble_invert
                        (record { cell-put = λ c a. refl; id-put = λ c a. refl }),
                    tt,
                  ),
                ),
              ),
            ),
          ),
        ),
      ),
    ),
  )
