-- ===== src/Codec.antt =====
-- src/codec.rs: the checksum, the framing and the byte stuffing of the panel's protocol.
-- A buffer is a list of bytes; the shared error counter is passed in and returned.
pub mod Stuffing
pub mod Decoding
pub mod Soundness
pub mod RoundTrip
mod Runs
use satel_integra.Common.{
  ℕ, zero, suc, ◌+◌, ◌-◌, ◌*◌, ◌/◌, ◌%◌, ◌^◌, bit_xor, Bool, true, false, ◌&&◌, ◌||◌, Option, none,
  some, List, [], ◌∷◌, ◌++◌, ◌==◌, ltb, if◌then◌else◌, length, take, drop,
}
use mathlib.Core.List.{foldl}
use mathlib.Core.Option

-- `u16::rotate_left(1)`.
abbrev rotate_left : ℕ → ℕ
rotate_left c = c * 2 % 2 ^ 16 + c / 2 ^ 15

-- One round of the loop over the bytes.
pub crc_step : ℕ → ℕ → ℕ
crc_step crc byte =
    let flipped = bit_xor (rotate_left crc) 0xFFFF in
    let mixed = (flipped + flipped / 2 ^ 8) % 2 ^ 16 in (mixed + byte) % 2 ^ 16

pub calculate_crc : List ℕ → ℕ
unfolding crc_step
calculate_crc payload = foldl crc_step 0x147A payload

-- `u16::to_be_bytes` and `u16::from_be_bytes`.
abbrev pub to_be_bytes : ℕ → List ℕ
to_be_bytes w = w / 2 ^ 8 ∷ w % 2 ^ 8 ∷ []

abbrev pub from_be_bytes : ℕ → ℕ → ℕ
from_be_bytes high low = high * 2 ^ 8 + low

-- The encoder's loop over the bytes: 0xFE is written as 0xFE 0xF0.
pub stuff : List ℕ → List ℕ
stuff [] = []
stuff (b ∷ bs) = (if b == 0xFE then 0xFE ∷ 0xF0 ∷ [] else b ∷ []) ++ stuff bs

-- What `encode` appends to its destination.
pub encode : List ℕ → List ℕ
unfolding stuff calculate_crc
encode item =
    0xFE ∷ 0xFE ∷ (stuff item ++ (stuff (to_be_bytes (calculate_crc item)) ++ (0xFE ∷ 0x0D ∷ [])))

-- `windows(2).position(|w| w == [a, b])`.
pub position_of : ℕ → ℕ → List ℕ → Option ℕ
position_of a b [] = none
position_of a b (x ∷ []) = none
position_of a b (x ∷ y ∷ r) =
    let rest = position_of a b (y ∷ r) in
    if (x == a) && (y == b) then some 0 else Option.map suc rest

-- `src.last() == Some(&0xFE)`.
pub ends_in_marker : List ℕ → Bool
ends_in_marker [] = false
ends_in_marker (x ∷ []) = x == 0xFE
ends_in_marker (x ∷ y ∷ r) = ends_in_marker (y ∷ r)

-- The loop `while i < frame_raw.len() - 2`, on what is left of `frame_raw` from `i` on.
pub unstuff : List ℕ → List ℕ
unstuff [] = []
unstuff (a ∷ []) = []
unstuff (a ∷ b ∷ []) = []
unstuff (a ∷ b ∷ c ∷ r) =
    let escaped = 0xFE ∷ unstuff (c ∷ r) in
    let plain = a ∷ unstuff (b ∷ c ∷ r) in if (a == 0xFE) && (b == 0xF0) then escaped else plain

-- The two `pop` calls: the payload, the high and the low byte; `none` below two bytes.
pub split_crc : List ℕ → Option (List ℕ × ℕ × ℕ)
split_crc [] = none
split_crc (a ∷ []) = none
split_crc (a ∷ b ∷ []) = some ([], a, b)
split_crc (a ∷ b ∷ c ∷ r) =
    Option.map (λ (p, high, low). (a ∷ p, high, low)) (split_crc (b ∷ c ∷ r))

-- What a call of `decode` leaves: its result, the buffer and the counter of checksum errors.
pub record Decoded : Type 0 where
  pub frame : Option (List ℕ)
  pub src : List ℕ
  pub crc_errors : ℕ

abbrev pub waiting : List ℕ → ℕ → Decoded
waiting src crc_errors = record { frame = none; src = src; crc_errors = crc_errors }

-- The end of `decode`: the two checksum bytes are taken off the unstuffed bytes and compared; a
-- frame that is too short or whose checksum is wrong is dropped, and `again` is the call of itself.
checked : (ℕ → List ℕ → Option Decoded) → ℕ → List ℕ → List ℕ → Option Decoded
unfolding split_crc calculate_crc
checked again crc_errors rest data_with_crc = elim (split_crc data_with_crc) [
  | none ↦ again crc_errors rest
  | some (payload, high, low) ↦ elim (from_be_bytes high low == calculate_crc payload) [
    | true ↦ some (record { frame = some payload; src = rest; crc_errors = crc_errors })
    | false ↦ again ((crc_errors + 1) % 2 ^ 64) rest
  ]
]

-- The middle of `decode`, on a buffer that begins with the header: up to the first 0xFE 0x0D.
framed : (ℕ → List ℕ → Option Decoded) → ℕ → List ℕ → Option Decoded
unfolding position_of unstuff checked
framed again crc_errors src = elim (position_of 0xFE 0x0D src) [
  | none ↦ some (waiting src crc_errors)
  | some pos ↦ checked again crc_errors (drop (pos + 2) src) (unstuff (drop 2 (take (pos + 2) src)))
]

-- `decode` calls itself after a frame that it drops, so it takes fuel; `none` is no result of the
-- code: the fuel ran out.
pub decode : ℕ → ℕ → List ℕ → Option Decoded
unfolding position_of ends_in_marker framed
decode zero crc_errors src = none
decode (suc fuel) crc_errors src = elim (ltb (length src) 2) [
  | true ↦ some (waiting src crc_errors)
  | false ↦ elim (position_of 0xFE 0xFE src) [
    | none ↦
        some (
          waiting (drop (if ends_in_marker src then length src - 1 else length src) src) crc_errors)
    | some start ↦ framed (decode fuel) crc_errors (drop start src)
  ]
]

-- Each call of itself comes after at least two bytes are taken off the buffer.
abbrev pub enough_fuel : List ℕ → ℕ
enough_fuel src = suc (length src)
