-- ===== src/PushHandler/Followed.antt =====
-- The events of all frames together tell a subscriber what the cache knows of the troubles.
use satel_integra.Common.{
  ℕ, ◌≡◌, refl, sym, ap, ◌∙◌, inl, inr, Bool, true, false, List, [], ◌∷◌, ◌==◌, arith,
}
use satel_integra.Error.{Result, Result-cases}
use satel_integra.Config.{Config}
use satel_integra.State.{SatelState, Zone, Partition}
use satel_integra.Event.{SatelEvent}
use satel_integra.Parsers.Zones.{States}
use satel_integra.Cache.Items.{Slot, update_item, update_items}
use satel_integra.Cache.Slots.{
  violation_slot, tamper_slot, alarm_slot, tamper_alarm_slot, alarm_memory_slot,
  tamper_alarm_memory_slot, bypass_slot, no_violation_trouble_slot, long_violation_trouble_slot,
  partition_armed_suppressed_slot, partition_armed_really_slot, partition_alarm_slot,
  partition_entry_time_slot, partition_exit_time_gt_10s_slot, partition_exit_time_lt_10s_slot,
  partition_alarm_memory_slot, output_slot,
}
use satel_integra.Cache.Updates.{
  update_zones, update_partitions, update_zones_violation_internal, update_zones_tamper_internal,
  update_zones_alarm_internal, update_zones_tamper_alarm_internal,
  update_zones_alarm_memory_internal, update_zones_tamper_alarm_memory_internal,
  update_zones_bypass_internal, update_zones_no_violation_trouble_internal,
  update_zones_long_violation_trouble_internal, update_partitions_armed_internal,
  update_partitions_armed_really_internal, update_partitions_alarm_internal,
  update_partitions_entry_time_internal, update_partitions_exit_time_gt_10s_internal,
  update_partitions_exit_time_lt_10s_internal, update_partitions_alarm_memory_internal,
  update_outputs_state_internal,
}
use satel_integra.Cache.Troubles.Replay.{View, view, tell, replay, replay-append}
use satel_integra.PushHandler.{
  Handler, arm, ignore, send_message, code_of, result_code, choose, handle_mask_frame,
}
use satel_integra.PushHandler.Again.{arm-ok, arm-err}

-- A subscriber who knew what the cache knew of the troubles, and hears the events, follows the cache.
abbrev pub Agrees : SatelState → SatelState × List SatelEvent → Type 0
Agrees before after = view after.0 ≡ replay after.1 (view before)

pub record Follows (h : Handler) : Type 0 where
  pub holds : (now : ℕ) (s : SatelState) → Agrees s (h now s)

choose-Follows : (b : Bool) (f g : Handler) → Follows f → Follows g → Follows (choose b f g)
choose-Follows true f g p q = record { holds = p.holds }
choose-Follows false f g p q = record { holds = q.holds }

ignore-Follows : Follows ignore
unfolding replay
ignore-Follows = record { holds = λ now s. refl }

result_code-Follows :
    (first : ℕ) (rest : List ℕ) → Follows (choose (first == 0xEF) (result_code rest) ignore)
unfolding replay
result_code-Follows first rest =
    choose-Follows (first == 0xEF) (result_code rest) ignore
      (choose-Follows (code_of rest == 0xFF) ignore (send_message (code_of rest)) ignore-Follows
        (record { holds = λ now s. refl }))
      ignore-Follows

arm-Follows :
    (parse : ℕ → Result States) (update : SatelState → States → Bool → SatelState × List SatelEvent)
    → ((s : SatelState) (d : States) → Agrees s (update s d false))
    → Follows (arm parse update)
arm-Follows parse update h = record {
  holds = λ now s. elim (Result-cases (parse now)) [
    | inl (d, e) ↦ rw (arm-ok parse update now s d e) (h s d)
    | inr (x, e) ↦ rw (arm-err parse update now s x e) (unfold replay in refl)
  ];
}

-- Events that tell nothing of troubles.
abbrev IsSilent {ℓ} : {A : Type ℓ} → Slot A → Type 0
IsSilent slot = (id : ℕ) (b : Bool) (v : View) → tell (slot.event id b) v ≡ v

module _ {ℓ} {A : Type ℓ} (slot : Slot A) (silent : IsSilent slot) (emit : Bool) (read_at : ℕ) where
  update_item-silent :
      (b : Bool) (item : A) (v : View) → replay (update_item slot emit read_at b item).1 v ≡ v
  unfolding update_item replay
  update_item-silent b item v = ground (arith, silent (slot.id item) b v)

  update_items-silent :
      (states : List Bool) (items : List A) (v : View)
      → replay (update_items slot emit read_at states items).1 v ≡ v
  unfolding update_items
  update_items-silent [] items v = unfold replay in refl
  update_items-silent (b ∷ states) [] v = unfold replay in refl
  update_items-silent (b ∷ states) (item ∷ items) v =
      replay-append (update_item slot emit read_at b item).1
        (update_items slot emit read_at states items).1 v
      ∙ ap (replay (update_items slot emit read_at states items).1) (update_item-silent b item v)
      ∙ update_items-silent states items v

module _ (config : Config) where
  zone-Follows :
      (slot : Slot Zone) (parse : ℕ → Result States)
      → IsSilent slot
      → Follows (arm parse (update_zones slot config))
  unfolding update_zones view
  zone-Follows slot parse silent =
      arm-Follows parse (update_zones slot config)
        λ s d. sym (update_items-silent slot silent _ d.read_at d.states s.zones (view s))

  partition-Follows :
      (slot : Slot Partition) (parse : ℕ → Result States)
      → IsSilent slot
      → Follows (arm parse (update_partitions slot config))
  unfolding update_partitions view
  partition-Follows slot parse silent =
      arm-Follows parse (update_partitions slot config)
        λ s d. sym (update_items-silent slot silent _ d.read_at d.states s.partitions (view s))

  output-Follows :
      (parse : ℕ → Result States) → Follows (arm parse (update_outputs_state_internal config))
  unfolding update_outputs_state_internal view tell
  output-Follows parse = arm-Follows parse (update_outputs_state_internal config) λ s d.
      sym (update_items-silent output_slot (λ id b v. refl) _ d.read_at d.states s.outputs (view s))

pub handle_mask_frame-Follows :
    (config : Config) (first : ℕ) (rest : List ℕ)
    → Follows (handle_mask_frame config (first ∷ rest))
unfolding handle_mask_frame tell update_zones_violation_internal update_zones_tamper_internal
    update_zones_alarm_internal update_zones_tamper_alarm_internal
    update_zones_alarm_memory_internal update_zones_tamper_alarm_memory_internal
    update_zones_bypass_internal update_zones_no_violation_trouble_internal
    update_zones_long_violation_trouble_internal update_partitions_armed_internal
    update_partitions_armed_really_internal update_partitions_alarm_internal
    update_partitions_entry_time_internal update_partitions_exit_time_gt_10s_internal
    update_partitions_exit_time_lt_10s_internal update_partitions_alarm_memory_internal
handle_mask_frame-Follows config first rest =
    choose-Follows (first == 0x00) _ _ (zone-Follows config violation_slot _ (λ id b v. refl)) (
      choose-Follows (first == 0x01) _ _ (zone-Follows config tamper_slot _ (λ id b v. refl)) (
        choose-Follows (first == 0x02) _ _ (zone-Follows config alarm_slot _ (λ id b v. refl)) (
          choose-Follows (first == 0x03) _ _
            (zone-Follows config tamper_alarm_slot _ (λ id b v. refl))
            (choose-Follows (first == 0x04) _ _
              (zone-Follows config alarm_memory_slot _ (λ id b v. refl))
              (choose-Follows (first == 0x05) _ _
                (zone-Follows config tamper_alarm_memory_slot _ (λ id b v. refl))
                (choose-Follows (first == 0x06) _ _
                  (zone-Follows config bypass_slot _ (λ id b v. refl))
                  (choose-Follows (first == 0x07) _ _
                    (zone-Follows config no_violation_trouble_slot _ (λ id b v. refl))
                    (choose-Follows (first == 0x08) _ _
                      (zone-Follows config long_violation_trouble_slot _ (λ id b v. refl))
                      (choose-Follows (first == 0x09) _ _
                        (partition-Follows config partition_armed_suppressed_slot _
                          (λ id b v. refl))
                        (choose-Follows (first == 0x0A) _ _
                          (partition-Follows config partition_armed_really_slot _ (λ id b v. refl))
                          (choose-Follows (first == 0x13) _ _
                            (partition-Follows config partition_alarm_slot _ (λ id b v. refl))
                            (choose-Follows (first == 0x0E) _ _
                              (partition-Follows config partition_entry_time_slot _
                                (λ id b v. refl))
                              (choose-Follows (first == 0x0F) _ _
                                (partition-Follows config partition_exit_time_gt_10s_slot _
                                  (λ id b v. refl))
                                (choose-Follows (first == 0x10) _ _
                                  (partition-Follows config partition_exit_time_lt_10s_slot _
                                    (λ id b v. refl))
                                  (choose-Follows (first == 0x15) _ _
                                    (partition-Follows config partition_alarm_memory_slot _
                                      (λ id b v. refl))
                                    (choose-Follows (first == 0x17) _ _ (output-Follows config _)
                                      (result_code-Follows first rest)))))))))))))))))
