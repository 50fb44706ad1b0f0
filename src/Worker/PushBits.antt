-- ===== src/Worker/PushBits.antt =====
-- src/worker.rs, `satel_connection_worker_connect_build_push_mask`: which bits are set.
use satel_integra.Common.{ltb}
use satel_integra.Common.{
  ℕ, zero, suc, ◌^◌, ◌<◌, ◌≡◌, ◌==◌, Bool, true, false, not, ◌&&◌, ◌||◌, List, [], ◌∷◌, length,
  bit_or, every, every-at, All, arith, refl, ◌∙◌, ap,
}
use satel_integra.Parsers.Bits.{bit_set}
use satel_integra.Parsers.Versions.{byte_at}
use satel_integra.Worker.PushMask.{set_bit, when, set_bits}

same : Bool → Bool → Bool
same true b = b
same false b = not b

same-≡ : (a b : Bool) → same a b ≡ true → a ≡ b
unfolding same
same-≡ true true e = refl
same-≡ true false e = absurd (cc)
same-≡ false true e = absurd (cc)
same-≡ false false e = refl

or_sets :
    every
      (λ x.
        every
          (λ b. every (λ b'. same (bit_set (bit_or x (2 ^ b)) b') (bit_set x b' || (b' == b))) 8)
          8)
      256
    ≡ true
unfolding every same
or_sets = refl

or_stays : every (λ x. every (λ b. ltb (bit_or x (2 ^ b)) 256) 8) 256 ≡ true
unfolding every
or_stays = refl

bit_set-or :
    (x b b' : ℕ)
    → x < 256
    → b < 8
    → b' < 8
    → bit_set (bit_or x (2 ^ b)) b' ≡ (bit_set x b' || (b' == b))
bit_set-or x b b' h k l =
    same-≡ _ _ (every-at _ 8 b' (every-at _ 8 b (every-at _ 256 x or_sets h) k) l)

or-byte : (x b : ℕ) → x < 256 → b < 8 → bit_or x (2 ^ b) < 256
or-byte x b h k = let e = every-at _ 8 b (every-at _ 256 x or_stays h) k in ground arith

abbrev pub IsByte : ℕ → Type 0
IsByte x = x < 256

set_bit-All : (i b : ℕ) (mask : List ℕ) → b < 8 → All IsByte mask → All IsByte (set_bit i b mask)
unfolding set_bit
set_bit-All i b [] k h = h
set_bit-All zero b (x ∷ xs) k h = (or-byte x b h.0 k, h.1)
set_bit-All (suc i) b (x ∷ xs) k h = (h.0, set_bit-All i b xs k h.1)

length-set_bit : (i b : ℕ) (mask : List ℕ) → length (set_bit i b mask) ≡ length mask
unfolding set_bit
length-set_bit i b [] = refl
length-set_bit zero b (x ∷ xs) = refl
length-set_bit (suc i) b (x ∷ xs) = ap suc (length-set_bit i b xs)

suc-==-suc : (j i : ℕ) → (suc j == suc i) ≡ (j == i)
suc-==-suc j i = ground arith

byte_at-set_bit :
    (i b : ℕ) (mask : List ℕ) (j b' : ℕ)
    → All IsByte mask
    → i < length mask
    → b < 8
    → b' < 8
    → bit_set (byte_at (set_bit i b mask) j) b'
      ≡ (bit_set (byte_at mask j) b' || ((j == i) && (b' == b)))
unfolding set_bit
byte_at-set_bit i b [] j b' h l k m = absurd (omega arith)
byte_at-set_bit zero b (x ∷ xs) zero b' h l k m = bit_set-or x b b' h.0 k m
byte_at-set_bit zero b (x ∷ xs) (suc j) b' h l k m = ground arith
byte_at-set_bit (suc i) b (x ∷ xs) zero b' h l k m = ground arith
byte_at-set_bit (suc i) b (x ∷ xs) (suc j) b' h l k m =
    rw (suc-==-suc j i) (byte_at-set_bit i b xs j b' h.1 (omega arith) k m)

-- Is the bit among the wanted ones?
abbrev pub wanted_at : List (Bool × ℕ × ℕ) → ℕ → ℕ → Bool
wanted_at [] j b' = false
wanted_at ((wanted, i, b) ∷ entries) j b' =
    (wanted && ((j == i) && (b' == b))) || wanted_at entries j b'

abbrev pub Fits : ℕ → List (Bool × ℕ × ℕ) → Type 0
Fits n [] = Unit {0}
Fits n ((wanted, i, b) ∷ entries) = (i < n) × (b < 8) × Fits n entries

or_assoc : (a b c : Bool) → ((a || b) || c) ≡ (a || (b || c))
or_assoc true b c = refl
or_assoc false b c = refl

pub byte_at-set_bits :
    (entries : List (Bool × ℕ × ℕ)) (mask : List ℕ) (j b' : ℕ)
    → All IsByte mask
    → Fits (length mask) entries
    → b' < 8
    → bit_set (byte_at (set_bits entries mask) j) b'
      ≡ (bit_set (byte_at mask j) b' || wanted_at entries j b')
unfolding set_bits when
byte_at-set_bits [] mask j b' h f m = ground arith
byte_at-set_bits ((false, i, b) ∷ entries) mask j b' h f m =
    byte_at-set_bits entries mask j b' h f.2 m
byte_at-set_bits ((true, i, b) ∷ entries) mask j b' h f m =
    let o = byte_at-set_bit i b mask j b' h f.0 f.1 m in
    let f' : Fits (length (set_bit i b mask)) entries = rw (length-set_bit i b mask) f.2 in
    let ih = byte_at-set_bits entries (set_bit i b mask) j b' (set_bit-All i b mask f.1 h) f' m in
    ih
    ∙ (ap (λ x. x || wanted_at entries j b') o
        ∙ or_assoc (bit_set (byte_at mask j) b') ((j == i) && (b' == b)) (wanted_at entries j b'))
