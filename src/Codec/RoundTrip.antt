-- ===== src/Codec/RoundTrip.antt =====
-- What the decoder makes of what the encoder wrote.
use satel_integra.Common.{
  ℕ, suc, ◌+◌, ◌/◌, ◌-◌, ◌^◌, ◌%◌, ◌≡◌, refl, sym, ap, ◌∙◌, true, false, Option, none, some, List,
  [], ◌∷◌, ◌++◌, ◌==◌, ltb, length, length-append, take, drop, arith, Bool-cases, Option-cases, inl,
  inr, append_assoc, append-nil, take-length_append, drop-length_append, if◌then◌else◌,
}
use satel_integra.Codec.{
  stuff, unstuff, position_of, split_crc, crc_step, calculate_crc, from_be_bytes, to_be_bytes,
  Decoded, waiting, checked, framed, decode, encode, ends_in_marker,
}
use satel_integra.Codec.Stuffing.{
  stuff-append, stuff_plain, stuff_marker, unstuff-stuff, position_of_trailer, position_of_header,
}
use native.Mathlib.Decide.{ℕ_discrete}

-- The wire form of a payload with its checksum bytes already behind it.
abbrev pub wire : List ℕ → List ℕ → List ℕ
wire bytes rest = 0xFE ∷ 0xFE ∷ (stuff bytes ++ (0xFE ∷ 0x0D ∷ rest))

abbrev pub StartsWith : ℕ → List ℕ → Type 0
StartsWith b [] = ⊥
StartsWith b (x ∷ xs) = x ≡ b

-- The header is not taken for the trailer, unless the payload begins with 0x0D.
wire_position :
    (bytes rest : List ℕ)
    → ¬ StartsWith 0x0D bytes
    → position_of 0xFE 0x0D (wire bytes rest) ≡ some (suc (suc (length (stuff bytes))))
unfolding position_of
wire_position [] rest n = unfold stuff in refl
wire_position (b ∷ bs) rest n = elim (ℕ_discrete b 0xFE) [
  | yes e ↦ ground (arith, stuff_marker b bs e, position_of_trailer (b ∷ bs) rest)
  | no m ↦ ground (arith, stuff_plain b bs m, position_of_trailer (b ∷ bs) rest)
]

frame_end :
    (xs rest : List ℕ)
    → (take (length xs + 2) (xs ++ (0xFE ∷ 0x0D ∷ rest)) ≡ xs ++ (0xFE ∷ 0x0D ∷ []))
      × (drop (length xs + 2) (xs ++ (0xFE ∷ 0x0D ∷ rest)) ≡ rest)
frame_end xs rest =
    let ends : List ℕ = 0xFE ∷ 0x0D ∷ [] in
    let n : length xs + 2 ≡ length (xs ++ ends) = omega (arith, length-append xs ends) in
    let split : xs ++ (0xFE ∷ 0x0D ∷ rest) ≡ (xs ++ ends) ++ rest =
      sym (append_assoc xs ends rest) in
    (
      rw (n, split) (take-length_append (xs ++ ends) rest),
      rw (n, split) (drop-length_append (xs ++ ends) rest),
    )

-- `framed` cuts the stuffed bytes out and unstuffs them.
framed-wire :
    (again : ℕ → List ℕ → Option Decoded) (e : ℕ) (bytes rest : List ℕ)
    → ¬ StartsWith 0x0D bytes
    → framed again e (wire bytes rest) ≡ checked again e rest bytes
unfolding framed
framed-wire again e bytes rest n =
    let k = length (stuff bytes) in
    let two : suc (suc k) + 2 ≡ suc (suc (k + 2)) = omega arith in
    let (taken, dropped) = frame_end (stuff bytes) rest in
    rw (wire_position bytes rest n, framed, two, taken, dropped, unstuff-stuff bytes)

-- Bytes in front of a frame that hold no header and do not end in the marker byte.
abbrev pub IsNoise : List ℕ → Type 0
IsNoise noise = (position_of 0xFE 0xFE noise ≡ none) × (ends_in_marker noise ≡ false)

noise_position :
    (noise r : List ℕ)
    → IsNoise noise
    → position_of 0xFE 0xFE (noise ++ (0xFE ∷ 0xFE ∷ r)) ≡ some (length noise)
unfolding position_of ends_in_marker
noise_position [] r q = refl
noise_position (x ∷ []) r q = ground arith
noise_position (x ∷ y ∷ noise) r q = elim (Option-cases (position_of 0xFE 0xFE (y ∷ noise))) [
  | inl e ↦ ground (arith, e, noise_position (y ∷ noise) r (e, q.1))
  | inr (i, e) ↦ absurd (ground (arith, e, q.0))
]

-- `decode` skips noise and comes to the bytes that were stuffed.
decode-wire :
    (fuel e : ℕ) (noise bytes rest : List ℕ)
    → IsNoise noise
    → ¬ StartsWith 0x0D bytes
    → decode (suc fuel) e (noise ++ wire bytes rest) ≡ checked (decode fuel) e rest bytes
unfolding decode
decode-wire fuel e noise bytes rest q n =
    let long : ltb (length (noise ++ wire bytes rest)) 2 ≡ false =
      ground (arith, length-append noise (wire bytes rest)) in
    rw
      (
        long,
        noise_position noise (stuff bytes ++ (0xFE ∷ 0x0D ∷ rest)) q,
        decode,
        drop-length_append noise (wire bytes rest),
      )
      (framed-wire (decode fuel) e bytes rest n)

split_crc-append :
    (payload : List ℕ) (high low : ℕ)
    → split_crc (payload ++ (high ∷ low ∷ [])) ≡ some (payload, high, low)
unfolding split_crc
split_crc-append [] high low = refl
split_crc-append (x ∷ []) high low = refl
split_crc-append (x ∷ y ∷ []) high low = refl
split_crc-append (x ∷ y ∷ z ∷ r) high low = rw (split_crc-append (y ∷ z ∷ r) high low)

abbrev with_crc : List ℕ → List ℕ
with_crc item = item ++ to_be_bytes (calculate_crc item)

encode-wire : (item rest : List ℕ) → encode item ++ rest ≡ wire (with_crc item) rest
unfolding encode
encode-wire item rest =
    rw (stuff-append item (to_be_bytes (calculate_crc item)))
      (ap (λ t. 0xFE ∷ 0xFE ∷ t) (simp append_assoc))

-- The checksum of an empty payload begins with 0x14, so only the payload's first byte matters.
crc_start : (item : List ℕ) → ¬ StartsWith 0x0D item → ¬ StartsWith 0x0D (with_crc item)
crc_start [] n = unfold calculate_crc crc_step in (λ e. cc)
crc_start (x ∷ item) n = n

-- Any payload that does not begin with 0x0D comes back from `decode`: noise in front is skipped,
-- what follows stays in the buffer, and no checksum error is counted.
pub decode-encode :
    (fuel e : ℕ) (noise item rest : List ℕ)
    → IsNoise noise
    → ¬ StartsWith 0x0D item
    → decode (suc fuel) e (noise ++ (encode item ++ rest))
      ≡ some (record { frame = some item; src = rest; crc_errors = e })
unfolding checked
decode-encode fuel e noise item rest q n =
    let w = calculate_crc item in
    let back : (from_be_bytes (w / 2 ^ 8) (w % 2 ^ 8) == w) ≡ true = ground arith in
    rw (
      encode-wire item rest,
      decode-wire fuel e noise (with_crc item) rest q (crc_start item n),
      split_crc-append item (w / 2 ^ 8) (w % 2 ^ 8),
      checked,
      back,
    )

-- The header's second marker and a 0x0D behind it are taken for the end of a frame.
lost_step :
    (fuel e : ℕ) (tail : List ℕ)
    → decode (suc fuel) e (0xFE ∷ 0xFE ∷ 0x0D ∷ tail) ≡ decode fuel e tail
unfolding decode framed checked position_of unstuff split_crc
lost_step fuel e tail =
    let long : ltb (suc (suc (suc (length tail)))) 2 ≡ false = ground arith in rw (long, decode)

headerless :
    (fuel e : ℕ) (src : List ℕ)
    → position_of 0xFE 0xFE src ≡ none
    → (d : Decoded) × (decode (suc fuel) e src ≡ some d) × (d.frame ≡ none) × (d.crc_errors ≡ e)
unfolding decode
headerless fuel e src p = elim (Bool-cases (ltb (length src) 2)) [
  | inl short ↦ (waiting src e, rw (short, decode), refl, refl)
  | inr long ↦
      let kept : List ℕ = drop (if ends_in_marker src then length src - 1 else length src) src in
      (waiting kept e, rw (long, p, decode), refl, refl)
]

-- A payload that begins with 0x0D is never decoded: on what the encoder writes for it, `decode`
-- returns no frame and counts no error, whatever the payload's other bytes are.
pub decode-encode_lost :
    (fuel e : ℕ) (item : List ℕ)
    → (d : Decoded) × (decode (suc (suc fuel)) e (encode (0x0D ∷ item)) ≡ some d)
      × (d.frame ≡ none)
      × (d.crc_errors ≡ e)
decode-encode_lost fuel e item =
    let tail = item ++ to_be_bytes (calculate_crc (0x0D ∷ item)) in
    let (d, r, none_found, same) =
      headerless fuel e (stuff tail ++ (0xFE ∷ 0x0D ∷ [])) (position_of_header tail) in
    let written : encode (0x0D ∷ item) ≡ 0xFE ∷ 0xFE ∷ 0x0D ∷ (stuff tail ++ (0xFE ∷ 0x0D ∷ [])) =
      sym (append-nil (encode (0x0D ∷ item)))
      ∙ encode-wire (0x0D ∷ item) []
      ∙ ap (λ t. 0xFE ∷ 0xFE ∷ (t ++ (0xFE ∷ 0x0D ∷ []))) (stuff_plain 0x0D tail (omega arith)) in
    (d, rw (written, lost_step (suc fuel) e (stuff tail ++ (0xFE ∷ 0x0D ∷ []))) r, none_found, same)
