-- ===== src/Parsers/Zones.antt =====
-- src/parsers/zones.rs: the nine masks of zone states. `Local::now()` is the argument `now`. The
-- source's nine `Zones…Data` types have the same two fields, and are one type here.
use satel_integra.Common.{
  ℕ, ◌≤◌, ◌≡◌, refl, ◌↔◌, ◌⊎◌, inl, inr, Bool, Bool-cases, List, [], ◌∷◌, ◌==◌, leb, length, arith,
}
use satel_integra.Error.{SatelError, Result, ok, err, ◌>>=◌, ◌>>◌, guard}
use satel_integra.Parsers.Bits.{parse_bit_states}

pub record States : Type 0 where
  pub states : List Bool
  pub read_at : ℕ

-- The two tests that every mask parser begins with: the command byte, then the least length.
unfoldable pub frame_data : ℕ → ℕ → List ℕ → Result (List ℕ)
frame_data command least [] = err SatelError.invalid_frame
frame_data command least (first ∷ rest) = do
  guard (first == command) SatelError.invalid_frame
  guard (leb least (length rest)) SatelError.invalid_frame
  ok rest

unfoldable pub zone_mask : ℕ → ℕ → List ℕ → List ℕ → Result States
unfolding frame_data
zone_mask command now frame invert_list = do
  payload ← frame_data command 16 frame
  ok (record { states = parse_bit_states payload invert_list; read_at = now })

unfoldable pub process_zones_violation : ℕ → List ℕ → List ℕ → Result States
unfolding zone_mask
process_zones_violation = zone_mask 0x00

unfoldable pub process_zones_tamper : ℕ → List ℕ → List ℕ → Result States
unfolding zone_mask
process_zones_tamper = zone_mask 0x01

unfoldable pub process_zones_alarm : ℕ → List ℕ → List ℕ → Result States
unfolding zone_mask
process_zones_alarm = zone_mask 0x02

unfoldable pub process_zones_tamper_alarm : ℕ → List ℕ → List ℕ → Result States
unfolding zone_mask
process_zones_tamper_alarm = zone_mask 0x03

unfoldable pub process_zones_alarm_memory : ℕ → List ℕ → List ℕ → Result States
unfolding zone_mask
process_zones_alarm_memory = zone_mask 0x04

unfoldable pub process_zones_tamper_alarm_memory : ℕ → List ℕ → List ℕ → Result States
unfolding zone_mask
process_zones_tamper_alarm_memory = zone_mask 0x05

unfoldable pub process_zones_bypass : ℕ → List ℕ → List ℕ → Result States
unfolding zone_mask
process_zones_bypass = zone_mask 0x06

unfoldable pub process_zones_no_violation_trouble : ℕ → List ℕ → List ℕ → Result States
unfolding zone_mask
process_zones_no_violation_trouble = zone_mask 0x07

unfoldable pub process_zones_long_violation_trouble : ℕ → List ℕ → List ℕ → Result States
unfolding zone_mask
process_zones_long_violation_trouble = zone_mask 0x08

unfoldable pub IsMaskOf : ℕ → ℕ → List ℕ → List ℕ → Type 0
IsMaskOf command least payload frame = (frame ≡ command ∷ payload) × (least ≤ length payload)

accepts_iff :
    (command least : ℕ) (frame payload : List ℕ)
    → (frame_data command least frame ≡ ok payload) ↔ IsMaskOf command least payload frame
unfolding frame_data IsMaskOf
accepts_iff command least [] payload = (λ e. cc, λ e. cc e.0)
accepts_iff command least (first ∷ rest) payload =
    (λ e. (ground (arith, e), ground (arith, e)), λ e. ground (arith, e))

-- There is no other result than these two.
answers :
    (command least : ℕ) (frame : List ℕ)
    → (frame_data command least frame ≡ err SatelError.invalid_frame)
      ⊎ ((p : List ℕ) × (frame_data command least frame ≡ ok p))
unfolding frame_data
answers command least [] = inl refl
answers command least (first ∷ rest) = elim (Bool-cases (first == command)) [
  | inr n ↦ inl (rw n refl)
  | inl y ↦ elim (Bool-cases (leb least (length rest))) [
    | inr n ↦ inl (rw (y, n) refl)
    | inl z ↦ inr (rest, rw (y, z) refl)
  ]
]

-- The two tests accept a frame exactly if it is the command byte before enough bytes, and hand on
-- the bytes behind it; they refuse every other frame, with the error of an invalid frame.
pub frame_data_iff :
    (command least : ℕ) (frame payload : List ℕ)
    → ((frame_data command least frame ≡ ok payload) ↔ IsMaskOf command least payload frame)
      × ((frame_data command least frame ≡ err SatelError.invalid_frame)
          ↔ (¬ ((p : List ℕ) × IsMaskOf command least p frame)))
frame_data_iff command least frame payload = (
  accepts_iff command least frame payload,
  (
    λ e h. let back = (accepts_iff command least frame h.0).1 h.1 in cc,
    λ h. elim (answers command least frame) [
      | inl e ↦ e
      | inr (p, e) ↦ absurd (h (p, (accepts_iff command least frame p).0 e))
    ],
  ),
)
