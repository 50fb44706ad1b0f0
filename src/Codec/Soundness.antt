-- ===== src/Codec/Soundness.antt =====
-- What `decode` returns was on the wire: a stretch of the buffer behind a header unstuffs to the
-- frame and to its checksum.
use satel_integra.Common.{
  ℕ, zero, suc, ◌+◌, ◌^◌, ◌%◌, ◌≡◌, sym, ap, ◌∙◌, Option, some, List, [], ◌∷◌, ◌++◌, ◌==◌, ==_iff,
  ltb, length, take, drop, arith, Bool-cases, Option-cases, inl, inr, ◌⊎◌, append_assoc,
  take-append-drop,
}
use satel_integra.Codec.{
  unstuff, position_of, split_crc, calculate_crc, from_be_bytes, Decoded, waiting, checked, framed,
  decode,
}

-- `body` is the stretch between the header and the rest of the buffer.
pub record Carries (src payload rest : List ℕ) : Type 0 where
  pub before : List ℕ
  pub body : List ℕ
  pub high : ℕ
  pub low : ℕ
  pub whole : src ≡ before ++ (0xFE ∷ 0xFE ∷ (body ++ rest))
  pub unstuffed : split_crc (unstuff body) ≡ some (payload, high, low)
  pub crc_matches : from_be_bytes high low ≡ calculate_crc payload

later :
    (src front tail payload rest : List ℕ)
    → src ≡ front ++ tail
    → Carries tail payload rest
    → Carries src payload rest
later src front tail payload rest e c = record {
  before = front ++ c.before;
  body = c.body;
  high = c.high;
  low = c.low;
  whole = e ∙ ap (λ t. front ++ t) c.whole ∙ sym (append_assoc front c.before _);
  unstuffed = c.unstuffed;
  crc_matches = c.crc_matches;
}

position_of_found :
    (a b : ℕ) (xs : List ℕ) (p : ℕ)
    → position_of a b xs ≡ some p
    → (r : List ℕ) × (drop p xs ≡ a ∷ b ∷ r)
unfolding position_of
position_of_found a b [] p h = absurd (ground arith)
position_of_found a b (x ∷ []) p h = absurd (ground arith)
position_of_found a b (x ∷ y ∷ r) zero h = (r, ground arith)
position_of_found a b (x ∷ y ∷ r) (suc p) h = position_of_found a b (y ∷ r) p (ground arith)

Sound : (ℕ → List ℕ → Option Decoded) → Type 0
Sound again =
    (e : ℕ) (src : List ℕ) (d : Decoded) (payload : List ℕ)
    → again e src ≡ some d
    → d.frame ≡ some payload
    → Carries src payload d.src

-- `checked` accepts its bytes, or hands on to the call of itself.
checked_cases :
    (again : ℕ → List ℕ → Option Decoded) (e : ℕ) (rest bytes : List ℕ) (d : Decoded)
    (payload : List ℕ)
    → checked again e rest bytes ≡ some d
    → d.frame ≡ some payload
    → ((high : ℕ) × (low : ℕ) × (split_crc bytes ≡ some (payload, high, low))
        × (from_be_bytes high low ≡ calculate_crc payload)
        × (d.src ≡ rest))
      ⊎ ((e' : ℕ) × (again e' rest ≡ some d))
unfolding checked
checked_cases again e rest bytes d payload r f = elim (Option-cases (split_crc bytes)) [
  | inl p ↦ inr (e, rw (p, checked) at r)
  | inr ((found, high, low), p) ↦
      elim (Bool-cases (from_be_bytes high low == calculate_crc found)) [
        | inl q ↦
            let r' : some (record { frame = some found; src = rest; crc_errors = e }) ≡ some d =
              rw (p, q, checked) at r in
            inl (
              high,
              low,
              ground (arith, r', f, p),
              ground (arith, r', f, (==_iff _ _).0 q),
              ground (arith, r'),
            )
        | inr q ↦ inr ((e + 1) % 2 ^ 64, rw (p, q, checked) at r)
      ]
]

framed_carries :
    (again : ℕ → List ℕ → Option Decoded) (e : ℕ) (r : List ℕ) (d : Decoded) (payload : List ℕ)
    → Sound again
    → framed again e (0xFE ∷ 0xFE ∷ r) ≡ some d
    → d.frame ≡ some payload
    → Carries (0xFE ∷ 0xFE ∷ r) payload d.src
unfolding framed Sound
framed_carries again e r d payload sound h f =
    elim (Option-cases (position_of 0xFE 0x0D (0xFE ∷ 0xFE ∷ r))) [
      | inl p ↦ let h' : some (waiting (0xFE ∷ 0xFE ∷ r) e) ≡ some d = rw (p, framed) at h in cc
      | inr (pos, p) ↦
          let two : pos + 2 ≡ suc (suc pos) = omega arith in
          let h' = rw (p, framed, two) at h in
          elim (checked_cases again e (drop pos r) (unstuff (take pos r)) d payload h' f) [
            | inl (high, low, s, c, rest) ↦ record {
              before = [];
              body = take pos r;
              high = high;
              low = low;
              whole = ap (λ t. 0xFE ∷ 0xFE ∷ t) (rw rest (sym (take-append-drop pos r)));
              unstuffed = s;
              crc_matches = c;
            }
            | inr (e', a) ↦
                later _ (0xFE ∷ 0xFE ∷ take pos r) (drop pos r) payload d.src
                  (ap (λ t. 0xFE ∷ 0xFE ∷ t) (sym (take-append-drop pos r)))
                  (sound e' (drop pos r) d payload a f)
          ]
    ]

decode-Sound : (fuel : ℕ) → Sound (decode fuel)
unfolding Sound decode
decode-Sound zero e src d payload h f = absurd (ground arith)
decode-Sound (suc fuel) e src d payload h f = elim (Bool-cases (ltb (length src) 2)) [
  | inl short ↦ let h' : some (waiting src e) ≡ some d = rw (short, decode) at h in cc
  | inr long ↦ elim (Option-cases (position_of 0xFE 0xFE src)) [
    | inl p ↦ absurd (ground (arith, rw (long, p, decode) at h))
    | inr (start, p) ↦
        let (r, begins) = position_of_found 0xFE 0xFE src start p in
        later src (take start src) (0xFE ∷ 0xFE ∷ r) payload d.src
          (sym (take-append-drop start src) ∙ ap (λ t. take start src ++ t) begins)
          (framed_carries (decode fuel) e r d payload (decode-Sound fuel)
            (rw (long, p, begins, decode) at h) f)
  ]
]

-- A frame that `decode` returns was on the wire: the buffer holds, after some bytes, the header
-- 0xFE 0xFE and then a stretch that unstuffs to the frame and two bytes, which are its checksum;
-- what `decode` leaves in the buffer is exactly what follows that stretch.
pub decode-Carries :
    (fuel e : ℕ) (src : List ℕ) (d : Decoded) (payload : List ℕ)
    → decode fuel e src ≡ some d
    → d.frame ≡ some payload
    → Carries src payload d.src
decode-Carries fuel e src d payload h f = unfold Sound in decode-Sound fuel e src d payload h f
