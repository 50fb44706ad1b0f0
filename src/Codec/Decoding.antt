-- ===== src/Codec/Decoding.antt =====
-- `decode` on any buffer: it ends, it only takes bytes off, and what it returns carries its checksum.
use satel_integra.Common.{
  ℕ, zero, suc, ◌+◌, ◌-◌, ◌^◌, ◌%◌, ◌≤◌, ◌<◌, ◌≡◌, Option, some, List, [], ◌∷◌, ◌==◌, ltb, length,
  length-drop, take, drop, arith, Bool-cases, Option-cases, inl, inr, if◌then◌else◌,
}
use satel_integra.Codec.{
  unstuff, position_of, ends_in_marker, split_crc, calculate_crc, from_be_bytes, Decoded, waiting,
  checked, framed, decode, enough_fuel,
}

-- What every call of itself is assumed to do, for the shorter buffers that it is made on.
abbrev Ends : (ℕ → List ℕ → Option Decoded) → ℕ → Type 0
Ends again n =
    (e : ℕ) (src : List ℕ)
    → length src < n
    → (d : Decoded) × (again e src ≡ some d) × (length d.src ≤ length src)

checked-Ends :
    (again : ℕ → List ℕ → Option Decoded) (n e : ℕ) (rest data_with_crc : List ℕ)
    → Ends again n
    → length rest < n
    → (d : Decoded) × (checked again e rest data_with_crc ≡ some d) × (length d.src ≤ length rest)
unfolding checked
checked-Ends again n e rest data_with_crc ends h = elim (Option-cases (split_crc data_with_crc)) [
  | inl p ↦ rw (p, checked) (ends e rest h)
  | inr ((payload, high, low), p) ↦
      elim (Bool-cases (from_be_bytes high low == calculate_crc payload)) [
        | inl q ↦
            let out : Decoded = record { frame = some payload; src = rest; crc_errors = e } in
            (out, rw (p, q, checked), omega arith)
        | inr q ↦ rw (p, q, checked) (ends ((e + 1) % 2 ^ 64) rest h)
      ]
]

framed-Ends :
    (again : ℕ → List ℕ → Option Decoded) (n e : ℕ) (src : List ℕ)
    → Ends again n
    → 2 ≤ length src
    → length src ≤ n
    → (d : Decoded) × (framed again e src ≡ some d) × (length d.src ≤ length src)
unfolding framed
framed-Ends again n e src ends lo hi = elim (Option-cases (position_of 0xFE 0x0D src)) [
  | inl p ↦ (waiting src e, rw (p, framed), omega arith)
  | inr (pos, p) ↦
      let (d, r, shorter) =
        checked-Ends again n e (drop (pos + 2) src) (unstuff (drop 2 (take (pos + 2) src))) ends
          (omega (arith, length-drop (pos + 2) src)) in
      (d, rw (p, framed) r, omega (arith, length-drop (pos + 2) src, shorter))
]

position_of_bound :
    (a b : ℕ) (xs : List ℕ) (p : ℕ) → position_of a b xs ≡ some p → p + 2 ≤ length xs
unfolding position_of
position_of_bound a b [] p h = cc
position_of_bound a b (x ∷ []) p h = cc
position_of_bound a b (x ∷ y ∷ r) p h = elim (Option-cases (position_of a b (y ∷ r))) [
  | inl e ↦ ground (arith, e)
  | inr (q, e) ↦ ground (arith, position_of_bound a b (y ∷ r) q e, e)
]

decode_ends :
    (fuel e : ℕ) (src : List ℕ)
    → length src < fuel
    → (d : Decoded) × (decode fuel e src ≡ some d) × (length d.src ≤ length src)
unfolding decode
decode_ends zero e src h = absurd (omega arith)
decode_ends (suc fuel) e src h = elim (Bool-cases (ltb (length src) 2)) [
  | inl short ↦ (waiting src e, rw (short, decode), omega arith)
  | inr long ↦ elim (Option-cases (position_of 0xFE 0xFE src)) [
    | inl p ↦
        let kept : List ℕ = drop (if ends_in_marker src then length src - 1 else length src) src in
        (waiting kept e, rw (long, p, decode), omega (arith, length-drop _ src))
    | inr (start, p) ↦
        let (d, r, shorter) =
          framed-Ends (decode fuel) fuel e (drop start src) (decode_ends fuel)
            (omega (arith, length-drop start src, position_of_bound _ _ src start p))
            (omega (arith, length-drop start src)) in
        (d, rw (long, p, decode) r, omega (arith, length-drop start src, shorter))
  ]
]

-- `decode` ends on every buffer, with as much fuel as the buffer has bytes and one more, and what
-- it leaves in the buffer is no longer than what it was given.
pub decode_total :
    (e : ℕ) (src : List ℕ)
    → (d : Decoded) × (decode (enough_fuel src) e src ≡ some d) × (length d.src ≤ length src)
decode_total e src = decode_ends (enough_fuel src) e src (omega arith)
