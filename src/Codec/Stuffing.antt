-- ===== src/Codec/Stuffing.antt =====
-- Byte stuffing: what the encoder's and the decoder's loops do to one another, and where the
-- decoder's scans stop in stuffed bytes.
use satel_integra.Common.{
  ℕ, suc, ◌≤◌, ◌≡◌, ◌≢◌, refl, none, some, List, [], ◌∷◌, ◌++◌, length, length-append, arith,
}
use native.Mathlib.Decide.{ℕ_discrete}
use satel_integra.Codec.{stuff, unstuff, position_of}
use mathlib.Core.Option

-- The bytes that `stuff` writes for one byte.
pub stuff_plain : (b : ℕ) (bs : List ℕ) → b ≢ 0xFE → stuff (b ∷ bs) ≡ b ∷ stuff bs
unfolding stuff
stuff_plain b bs h = ground arith

pub stuff_marker : (b : ℕ) (bs : List ℕ) → b ≡ 0xFE → stuff (b ∷ bs) ≡ 0xFE ∷ 0xF0 ∷ stuff bs
unfolding stuff
stuff_marker b bs e = ground arith

pub stuff-append : (xs ys : List ℕ) → stuff (xs ++ ys) ≡ stuff xs ++ stuff ys
unfolding stuff
stuff-append [] ys = refl
stuff-append (x ∷ xs) ys = rw (stuff-append xs ys) (ground arith)

unstuff_escape : (r : List ℕ) → 1 ≤ length r → unstuff (0xFE ∷ 0xF0 ∷ r) ≡ 0xFE ∷ unstuff r
unfolding unstuff
unstuff_escape [] h = absurd (omega arith)
unstuff_escape (c ∷ r) h = refl

unstuff_plain : (a : ℕ) (r : List ℕ) → a ≢ 0xFE → 2 ≤ length r → unstuff (a ∷ r) ≡ a ∷ unstuff r
unfolding unstuff
unstuff_plain a [] n h = absurd (omega arith)
unstuff_plain a (b ∷ []) n h = absurd (omega arith)
unstuff_plain a (b ∷ c ∷ r) n h = ground arith

trailer_room : (xs : List ℕ) → 2 ≤ length (xs ++ (0xFE ∷ 0x0D ∷ []))
trailer_room xs = omega (arith, length-append xs (0xFE ∷ 0x0D ∷ []))

-- The decoder's loop undoes the encoder's.
pub unstuff-stuff : (bs : List ℕ) → unstuff (stuff bs ++ (0xFE ∷ 0x0D ∷ [])) ≡ bs
unstuff-stuff [] = unfold stuff unstuff in refl
unstuff-stuff (b ∷ bs) =
    let rest = stuff bs ++ (0xFE ∷ 0x0D ∷ []) in
    elim (ℕ_discrete b 0xFE) [
      | yes e ↦
          rw (stuff_marker b bs e)
            (cc (unstuff_escape rest (omega (arith, trailer_room (stuff bs))), unstuff-stuff bs, e))
      | no n ↦
          rw (stuff_plain b bs n)
            (cc (unstuff_plain b rest n (trailer_room (stuff bs)), unstuff-stuff bs))
    ]

-- A window that begins with no marker is passed over.
pub position_skip :
    (b x : ℕ) (r : List ℕ)
    → x ≢ 0xFE
    → position_of 0xFE b (x ∷ r) ≡ Option.map suc (position_of 0xFE b r)
unfolding position_of
position_skip b x [] h = refl
position_skip b x (y ∷ r) h = ground arith

escape_skip :
    (b : ℕ) (r : List ℕ)
    → b ≢ 0xF0
    → position_of 0xFE b (0xFE ∷ 0xF0 ∷ r) ≡ Option.map suc (Option.map suc (position_of 0xFE b r))
unfolding position_of
escape_skip b r h = ground (arith, position_skip b 0xF0 r)

-- The first 0xFE 0x0D of a stuffed payload with its trailer is the trailer.
pub position_of_trailer :
    (bs rest : List ℕ)
    → position_of 0xFE 0x0D (stuff bs ++ (0xFE ∷ 0x0D ∷ rest)) ≡ some (length (stuff bs))
unfolding stuff position_of
position_of_trailer [] rest = refl
position_of_trailer (b ∷ bs) rest = ground (
  arith,
  position_of_trailer bs rest,
  escape_skip 0x0D (stuff bs ++ (0xFE ∷ 0x0D ∷ rest)),
  position_skip 0x0D b (stuff bs ++ (0xFE ∷ 0x0D ∷ rest)),
)

-- A stuffed payload with its trailer holds no 0xFE 0xFE.
pub position_of_header :
    (bs : List ℕ) → position_of 0xFE 0xFE (stuff bs ++ (0xFE ∷ 0x0D ∷ [])) ≡ none
unfolding stuff position_of
position_of_header [] = refl
position_of_header (b ∷ bs) = ground (
  arith,
  position_of_header bs,
  escape_skip 0xFE (stuff bs ++ (0xFE ∷ 0x0D ∷ [])),
  position_skip 0xFE b (stuff bs ++ (0xFE ∷ 0x0D ∷ [])),
)
