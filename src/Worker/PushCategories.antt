-- ===== src/Worker/PushCategories.antt =====
-- src/worker.rs, `satel_connection_worker_connect_build_push_mask`: the bits and the categories.
use satel_integra.Common.{ltb}
use satel_integra.Common.{
  ℕ, zero, suc, ◌/◌, ◌%◌, ◌<◌, ◌≡◌, ◌==◌, Bool, true, false, not, ◌&&◌, ◌||◌, List, [], ◌∷◌, map,
  length, every, every-at, All, arith, refl, ◌∙◌, ap, if◌then◌else◌,
}
use satel_integra.Config.{Config}
use satel_integra.Command.{SatelCommand, to_byte}
use satel_integra.Parsers.Bits.{bit_set}
use satel_integra.Parsers.Versions.{byte_at}
use satel_integra.Worker.PushMask.{zeros, push_bits, build_push_mask}
use satel_integra.Worker.PushBits.{Fits, wanted_at, IsByte, byte_at-set_bits}

-- The push categories with the commands that the panel then sends by itself.
abbrev pub categories : Config → List (Bool × SatelCommand)
categories c =
    (c.auto_read_zones_violation, SatelCommand.zones_violation)
    ∷ (c.auto_read_zones_tamper, SatelCommand.zones_tamper)
    ∷ (c.auto_read_zones_alarm, SatelCommand.zones_alarm)
    ∷ (c.auto_read_zones_tamper_alarm, SatelCommand.zones_tamper_alarm)
    ∷ (c.auto_read_zones_alarm_memory, SatelCommand.zones_alarm_memory)
    ∷ (c.auto_read_zones_tamper_alarm_memory, SatelCommand.zones_tamper_alarm_memory)
    ∷ (c.auto_read_zones_bypass, SatelCommand.zones_bypass)
    ∷ (c.auto_read_zones_no_violation_trouble, SatelCommand.zones_no_violation_trouble)
    ∷ (c.auto_read_zones_long_violation_trouble, SatelCommand.zones_long_violation_trouble)
    ∷ (c.auto_read_partitions_armed_suppressed, SatelCommand.armed_partitions_suppressed)
    ∷ (c.auto_read_partitions_armed_really, SatelCommand.armed_partitions_really)
    ∷ (c.auto_read_partitions_alarm, SatelCommand.partitions_alarm)
    ∷ (c.auto_read_partitions_alarm_memory, SatelCommand.partitions_alarm_memory)
    ∷ (c.auto_read_partitions_entry_time, SatelCommand.partitions_entry_time)
    ∷ (c.auto_read_partitions_exit_time, SatelCommand.partitions_exit_time_more10s)
    ∷ (c.auto_read_partitions_exit_time, SatelCommand.partitions_exit_time_less10s)
    ∷ (c.auto_read_outputs_state, SatelCommand.outputs_state)
    ∷ (c.auto_read_system_troubles, SatelCommand.rtc_and_basic_status_bits)
    ∷ (c.auto_read_system_troubles, SatelCommand.troubles_part1)
    ∷ (c.auto_read_system_troubles, SatelCommand.troubles_part2)
    ∷ (c.auto_read_system_troubles, SatelCommand.troubles_part3)
    ∷ (c.auto_read_system_troubles, SatelCommand.troubles_part4)
    ∷ (c.auto_read_system_troubles, SatelCommand.troubles_part5)
    ∷ (c.auto_read_system_troubles, SatelCommand.troubles_part6)
    ∷ (c.auto_read_system_troubles, SatelCommand.troubles_part7)
    ∷ (c.auto_read_system_troubles, SatelCommand.troubles_part8)
    ∷ (c.auto_read_troubles_memory, SatelCommand.troubles_memory_part1)
    ∷ (c.auto_read_troubles_memory, SatelCommand.troubles_memory_part2)
    ∷ (c.auto_read_troubles_memory, SatelCommand.troubles_memory_part3)
    ∷ (c.auto_read_troubles_memory, SatelCommand.troubles_memory_part4)
    ∷ (c.auto_read_troubles_memory, SatelCommand.troubles_memory_part5)
    ∷ (c.auto_read_troubles_memory, SatelCommand.troubles_memory_part6)
    ∷ (c.auto_read_troubles_memory, SatelCommand.troubles_memory_part7)
    ∷ (c.auto_read_troubles_memory, SatelCommand.troubles_memory_part8)
    ∷ []

-- Is a category enabled whose command is sent as the number n?
abbrev pub is_wanted : List (Bool × SatelCommand) → ℕ → Bool
is_wanted [] n = false
is_wanted ((wanted, command) ∷ rest) n = (wanted && (n == to_byte command)) || is_wanted rest n

place : Bool × SatelCommand → Bool × ℕ × ℕ
place (wanted, command) = (wanted, to_byte command / 8, to_byte command % 8)

places : (c : Config) → push_bits c ≡ map place (categories c)
unfolding push_bits place to_byte
places c = refl

fits : ℕ → List (Bool × ℕ × ℕ) → Bool
fits n [] = true
fits n ((wanted, i, b) ∷ entries) = ltb i n && (ltb b 8 && fits n entries)

fits-Fits : (n : ℕ) (entries : List (Bool × ℕ × ℕ)) → fits n entries ≡ true → Fits n entries
unfolding fits
fits-Fits n [] e = tt
fits-Fits n ((wanted, i, b) ∷ entries) e =
    let e' : fits n entries ≡ true = ground arith in
    (ground arith, ground arith, fits-Fits n entries e')

divided : (n m : ℕ) → ((n / 8 == m / 8) && (n % 8 == m % 8)) ≡ (n == m)
divided n m = ground arith

wanted_at-place :
    (cs : List (Bool × SatelCommand)) (n : ℕ)
    → wanted_at (map place cs) (n / 8) (n % 8) ≡ is_wanted cs n
unfolding place
wanted_at-place [] n = refl
wanted_at-place ((wanted, command) ∷ cs) n =
    let d = divided n (to_byte command) in rw (d, wanted_at-place cs n)

zeros-All : (k : ℕ) → All IsByte (zeros k)
unfolding zeros
zeros-All zero = tt
zeros-All (suc k) = (omega arith, zeros-All k)

length-zeros : (k : ℕ) → length (zeros k) ≡ k
unfolding zeros
length-zeros zero = refl
length-zeros (suc k) = ap suc (length-zeros k)

byte_at-zeros : (k j : ℕ) → byte_at (zeros k) j ≡ 0
unfolding zeros
byte_at-zeros zero j = refl
byte_at-zeros (suc k) zero = refl
byte_at-zeros (suc k) (suc j) = byte_at-zeros k j

no_bits : every (λ b. not (bit_set 0 b)) 8 ≡ true
unfolding every
no_bits = refl

not-true : (b : Bool) → not b ≡ true → b ≡ false
not-true true e = absurd (cc)
not-true false e = refl

no_bit : (b : ℕ) → b < 8 → bit_set 0 b ≡ false
no_bit b h = not-true (bit_set 0 b) (every-at (λ x. not (bit_set 0 x)) 8 b no_bits h)

places-Fits :
    (c : Config) (support : Bool) → Fits (length (zeros (if support then 14 else 12))) (push_bits c)
unfolding fits push_bits zeros
places-Fits c true = fits-Fits 14 (push_bits c) refl
places-Fits c false = fits-Fits 12 (push_bits c) refl

-- Bit n % 8 of byte n / 8 of the push mask is set exactly if a category is enabled whose command the
-- code counts as the number n; no other bit is set. This holds of the mask of fourteen bytes and of that
-- of twelve, though the protocol ends the first list of the latter at byte 5: its bits for 48 and 49, the
-- commands 0x30 and 0x31, stand where the panel reads 0x00 and 0x01 of the second list.
pub byte_at-build_push_mask :
    (c : Config) (support : Bool) (n : ℕ)
    → bit_set (byte_at (build_push_mask c support) (n / 8)) (n % 8) ≡ is_wanted (categories c) n
unfolding build_push_mask
byte_at-build_push_mask c support n =
    let k : ℕ = if support then 14 else 12 in
    let m : n % 8 < 8 = omega arith in
    let e =
      byte_at-set_bits (push_bits c) (zeros k) (n / 8) (n % 8) (zeros-All k) (places-Fits c support)
        m in
    let none_set : bit_set 0 (n % 8) ≡ false = no_bit (n % 8) m in
    let z : bit_set (byte_at (zeros k) (n / 8)) (n % 8) ≡ false =
      ap (λ x. bit_set x (n % 8)) (byte_at-zeros k (n / 8)) ∙ none_set in
    let t : wanted_at (push_bits c) (n / 8) (n % 8) ≡ is_wanted (categories c) n =
      ap (λ es. wanted_at es (n / 8) (n % 8)) (places c) ∙ wanted_at-place (categories c) n in
    e ∙ (ap (λ b. b || wanted_at (push_bits c) (n / 8) (n % 8)) z ∙ t)
