-- ===== src/Worker/PushMask.antt =====
-- src/worker.rs, `satel_connection_worker_connect_build_push_mask`.
use satel_integra.Common.{ℕ, zero, suc, Bool, List, [], ◌∷◌, if◌then◌else◌, bit_or, ◌^◌}
use satel_integra.Config.{Config}

unfoldable pub zeros : ℕ → List ℕ
zeros zero = []
zeros (suc n) = 0 ∷ zeros n

-- `mask[i] |= 1 << bit`
unfoldable pub set_bit : ℕ → ℕ → List ℕ → List ℕ
set_bit i bit [] = []
set_bit zero bit (b ∷ bs) = bit_or b (2 ^ bit) ∷ bs
set_bit (suc i) bit (b ∷ bs) = b ∷ set_bit i bit bs

-- `if wanted { mask[i] |= 1 << bit }`
unfoldable pub when : Bool → ℕ → ℕ → List ℕ → List ℕ
unfolding set_bit
when wanted i bit mask = if wanted then set_bit i bit mask else mask

-- The assignments, in the source's order.
unfoldable pub push_bits : Config → List (Bool × ℕ × ℕ)
push_bits c =
    (c.auto_read_zones_violation, 0, 0)
    ∷ (c.auto_read_zones_tamper, 0, 1)
    ∷ (c.auto_read_zones_alarm, 0, 2)
    ∷ (c.auto_read_zones_tamper_alarm, 0, 3)
    ∷ (c.auto_read_zones_alarm_memory, 0, 4)
    ∷ (c.auto_read_zones_tamper_alarm_memory, 0, 5)
    ∷ (c.auto_read_zones_bypass, 0, 6)
    ∷ (c.auto_read_zones_no_violation_trouble, 0, 7)
    ∷ (c.auto_read_zones_long_violation_trouble, 1, 0)
    ∷ (c.auto_read_partitions_armed_suppressed, 1, 1)
    ∷ (c.auto_read_partitions_armed_really, 1, 2)
    ∷ (c.auto_read_partitions_alarm, 2, 3)
    ∷ (c.auto_read_partitions_alarm_memory, 2, 5)
    ∷ (c.auto_read_partitions_entry_time, 1, 6)
    ∷ (c.auto_read_partitions_exit_time, 1, 7)
    ∷ (c.auto_read_partitions_exit_time, 2, 0)
    ∷ (c.auto_read_outputs_state, 2, 7)
    ∷ (c.auto_read_system_troubles, 3, 2)
    ∷ (c.auto_read_system_troubles, 3, 3)
    ∷ (c.auto_read_system_troubles, 3, 4)
    ∷ (c.auto_read_system_troubles, 3, 5)
    ∷ (c.auto_read_system_troubles, 3, 6)
    ∷ (c.auto_read_system_troubles, 3, 7)
    ∷ (c.auto_read_system_troubles, 5, 4)
    ∷ (c.auto_read_system_troubles, 5, 5)
    ∷ (c.auto_read_system_troubles, 6, 0)
    ∷ (c.auto_read_troubles_memory, 4, 0)
    ∷ (c.auto_read_troubles_memory, 4, 1)
    ∷ (c.auto_read_troubles_memory, 4, 2)
    ∷ (c.auto_read_troubles_memory, 4, 3)
    ∷ (c.auto_read_troubles_memory, 4, 4)
    ∷ (c.auto_read_troubles_memory, 5, 6)
    ∷ (c.auto_read_troubles_memory, 5, 7)
    ∷ (c.auto_read_troubles_memory, 6, 1)
    ∷ []

unfoldable pub set_bits : List (Bool × ℕ × ℕ) → List ℕ → List ℕ
unfolding when
set_bits [] mask = mask
set_bits ((wanted, i, bit) ∷ rest) mask = set_bits rest (when wanted i bit mask)

unfoldable pub build_push_mask : Config → Bool → List ℕ
unfolding zeros set_bits push_bits
build_push_mask config support_14_byte_mask =
    set_bits (push_bits config) (zeros (if support_14_byte_mask then 14 else 12))
