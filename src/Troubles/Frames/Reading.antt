-- ===== src/Troubles/Frames/Reading.antt =====
-- src/parsers/system.rs, what the parsers of trouble frames share. `none` is a panic, of a range or
-- an index that the bytes do not have.
use satel_integra.Common.{
  ℕ, Bool, true, false, not, Option, some, List, [], ◌∷◌, ltb, if◌then◌else◌, length, leb, ltb, ◌≡◌,
  refl, ◌≤◌, inl, inr, Bool-cases, arith,
}
use satel_integra.Common.Panics.{
  ◌>>=◌, slice, slice-Succeeds, bind-Succeeds, Succeeds, some-Succeeds,
}
use satel_integra.Error.{SatelError, Result, ok, err, guard}
use satel_integra.Parsers.Bits.{extract_bits}

-- The two tests that each parser begins with: the command byte, then the least length.
unfoldable pub parse_part {ℓ} :
    {A : Type ℓ} → (ℕ → Bool) → ℕ → (ℕ → List ℕ → Option A) → List ℕ → Option (Result A)
parse_part accepts least read [] = some (err SatelError.invalid_frame)
parse_part accepts least read (first ∷ bytes) =
    if not (accepts first)
    then some (err SatelError.invalid_frame)
    else if ltb (length bytes) least
    then some (err SatelError.invalid_frame)
    else do part ← read first bytes; some (ok part)

-- `extract_bits(&data[first..last])`
abbrev pub bits_of : List ℕ → ℕ → ℕ → Option (List Bool)
bits_of bytes first last = do part ← slice bytes first last; some (extract_bits part)

-- What is left of an answer without its value.
unfoldable pub outcome {ℓ} : {A : Type ℓ} → Option (Result A) → Option (Result (Unit {0}))
outcome answer = do result ← answer; some (elim result [ err e ↦ err e | ok value ↦ ok tt ])

unfoldable pub long_enough : ℕ → List ℕ → Result (Unit {0})
long_enough least bytes = guard (leb least (length bytes)) SatelError.invalid_frame

pub bits_of-Succeeds :
    (bytes : List ℕ) (first last : ℕ)
    → first ≤ last
    → last ≤ length bytes
    → Succeeds (bits_of bytes first last)
bits_of-Succeeds bytes first last h k =
    bind-Succeeds (slice-Succeeds bytes first last h k) λ part. some-Succeeds _

outcome-map_ok {ℓ} :
    {A : Type ℓ} (value : Option A)
    → Succeeds value
    → outcome (do a ← value; some (ok a)) ≡ some (ok tt)
unfolding outcome
outcome-map_ok value h = rw h.returns refl

-- On its command byte a parser tells only whether the bytes are enough.
pub outcome-parse_part {ℓ} :
    {A : Type ℓ} (accepts : ℕ → Bool) (least : ℕ) (read : ℕ → List ℕ → Option A) (first : ℕ)
    (bytes : List ℕ)
    → accepts first ≡ true
    → (least ≤ length bytes → Succeeds (read first bytes))
    → outcome (parse_part accepts least read (first ∷ bytes)) ≡ some (long_enough least bytes)
unfolding parse_part long_enough
outcome-parse_part accepts least read first bytes accepted reads =
    elim (Bool-cases (leb least (length bytes))) [
      | inl e ↦
          let short : ltb (length bytes) least ≡ false = ground arith in
          rw (accepted, e, short) (outcome-map_ok (read first bytes) (reads (ground arith)))
      | inr e ↦
          let short : ltb (length bytes) least ≡ true = ground arith in
          rw (accepted, e, short) (unfold outcome in refl)
    ]
