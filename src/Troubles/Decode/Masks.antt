-- ===== src/Troubles/Decode/Masks.antt =====
-- src/parsers/system.rs: which bit of a frame a rule for a mask gives to which trouble.
use satel_integra.Common.{
  ℕ, zero, suc, ◌+◌, ◌-◌, ◌*◌, ◌/◌, ◌%◌, ◌^◌, ◌≤◌, ◌<◌, ◌≡◌, refl, ap, ◌∙◌, Bool, some, List, [],
  ◌∷◌, length, get_elem?, take, drop, length-take_le, length-drop, get_elem?-take, get_elem?-drop,
  arith,
}
use satel_integra.Common.Panics.{slice-le}
use satel_integra.Parsers.Bits.{
  bit_set, extract_bits, extract_bits-parse_bit_states, get_elem?-parse_bit_states, flag_at,
  contains,
}
use satel_integra.Troubles.Types.{TroubleType, TroubleItem, flag}
use satel_integra.Troubles.Rules.{bitmask}
use satel_integra.Troubles.Decode.{bit_flags, decode_rule}
use mathlib.Core.Option

get_elem?-bit_flags :
    (start_num : ℕ) (memory : Bool) (make : ℕ → TroubleType) (i : ℕ) (bits : List Bool) (n : ℕ)
    → start_num + i + length bits < 2 ^ 16
    → get_elem? (bit_flags start_num memory make i bits) n
      ≡ Option.map (λ active. flag (make (start_num + i + n)) memory active) (get_elem? bits n)
unfolding bit_flags
get_elem?-bit_flags start_num memory make i [] n h = refl
get_elem?-bit_flags start_num memory make i (active ∷ bits) zero h =
    let number : (start_num + i % 2 ^ 16) % 2 ^ 16 ≡ start_num + i + 0 = omega arith in
    rw number refl
get_elem?-bit_flags start_num memory make i (active ∷ bits) (suc n) h =
    let next : start_num + (i + 1) + n ≡ start_num + i + suc n = omega arith in
    rw next at (get_elem?-bit_flags start_num memory make (i + 1) bits n (omega arith))

get_elem?-extract_bits :
    (bytes : List ℕ) (n : ℕ)
    → 8 * length bytes < 2 ^ 16
    → get_elem? (extract_bits bytes) n
      ≡ Option.map (λ byte. bit_set byte (n % 8)) (get_elem? bytes (n / 8))
get_elem?-extract_bits bytes n h =
    rw (extract_bits-parse_bit_states bytes)
      (unfold flag_at contains in get_elem?-parse_bit_states bytes [] n h)

length-bit_flags :
    (start_num : ℕ) (memory : Bool) (make : ℕ → TroubleType) (i : ℕ) (bits : List Bool)
    → length (bit_flags start_num memory make i bits) ≡ length bits
unfolding bit_flags
length-bit_flags start_num memory make i [] = refl
length-bit_flags start_num memory make i (active ∷ bits) =
    ap suc (length-bit_flags start_num memory make (i + 1) bits)

length-extract_bits : (bytes : List ℕ) → length (extract_bits bytes) ≡ 8 * length bytes
unfolding extract_bits
length-extract_bits [] = refl
length-extract_bits (b ∷ bs) = omega (arith, length-extract_bits bs)

-- On enough bytes a rule for a bit mask reports every bit of its bytes once, in their order: there are
-- eight entries for each byte of the mask and no more, and entry `n` is the trouble that the rule makes of the number `start_num + n`, active exactly if bit `n % 8` of the
-- byte `n / 8` behind the offset is set; for numbers that fit 16 bits.
pub get_elem?-decode_rule :
    (bytes : List ℕ) (offset size start_num : ℕ) (memory : Bool) (make : ℕ → TroubleType) (n : ℕ)
    → offset + size ≤ length bytes
    → start_num + 8 * size < 2 ^ 16
    → n < 8 * size
    → (items : List TroubleItem) × (decode_rule bytes (bitmask offset size start_num memory make)
        ≡ some items)
      × (length items ≡ 8 * size)
      × (get_elem? items n
          ≡ Option.map
              (λ byte. flag (make (start_num + n)) memory (bit_set byte (n % 8)))
              (get_elem? bytes (offset + n / 8)))
unfolding decode_rule
get_elem?-decode_rule bytes offset size start_num memory make n enough fits h =
    let part = take (offset + size - offset) (drop offset bytes) in
    let long : length part ≡ size = omega (
      arith,
      length-drop offset bytes,
      length-take_le (offset + size - offset) (drop offset bytes)
          (omega (arith, length-drop offset bytes)),
    ) in
    let bits = length-extract_bits part in
    let at_bit = get_elem?-bit_flags start_num memory make 0 (extract_bits part) n (omega arith) in
    let of_byte = get_elem?-extract_bits part n (omega arith) in
    let number : start_num + 0 + n ≡ start_num + n = omega arith in
    let byte : get_elem? part (n / 8) ≡ get_elem? bytes (offset + n / 8) =
      get_elem?-take (offset + size - offset) (drop offset bytes) (n / 8) (omega arith)
      ∙ get_elem?-drop offset bytes (n / 8) in
    (
      bit_flags start_num memory make 0 (extract_bits part),
      rw (slice-le bytes offset (offset + size) (omega arith) enough) refl,
      length-bit_flags start_num memory make 0 (extract_bits part) ∙ bits ∙ ap (λ k. 8 * k) long,
      rw (at_bit, of_byte, byte, number) (Option.map-map _ _ _),
    )
