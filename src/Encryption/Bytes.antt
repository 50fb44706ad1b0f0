-- ===== src/Encryption/Bytes.antt =====
-- src/encryption.rs: combining bytes by exclusive or.
use satel_integra.Common.{
  ℕ, zero, suc, ◌<◌, ◌≡◌, ◌==◌, ◌&&◌, true, List, [], ◌∷◌, length, All, bit_xor, every, every-at,
  ltb, arith, refl, ap,
}
use satel_integra.Encryption.{xor_bytes, repeat}

abbrev pub IsByte : ℕ → Type 0
IsByte b = b < 256

xor_table :
    every (λ x. every (λ y. ltb (bit_xor x y) 256 && (bit_xor (bit_xor x y) y == x)) 256) 256 ≡ true
unfolding every
xor_table = refl

xor-IsByte : (x y : ℕ) → IsByte x → IsByte y → IsByte (bit_xor x y) × (bit_xor (bit_xor x y) y ≡ x)
xor-IsByte x y h k =
    let e =
      every-at (λ z. ltb (bit_xor x z) 256 && (bit_xor (bit_xor x z) z == x)) 256 y
        (every-at
          (λ z. every (λ y'. ltb (bit_xor z y') 256 && (bit_xor (bit_xor z y') y' == z)) 256) 256 x
          xor_table h)
        k in
    ground arith

pub xor_bytes-All : (ps cs : List ℕ) → All IsByte ps → All IsByte cs → All IsByte (xor_bytes ps cs)
unfolding xor_bytes
xor_bytes-All [] cs h k = tt
xor_bytes-All (p ∷ ps) [] h k = h
xor_bytes-All (p ∷ ps) (c ∷ cs) h k = ((xor-IsByte p c h.0 k.0).0, xor_bytes-All ps cs h.1 k.1)

pub length-xor_bytes : (ps cs : List ℕ) → length (xor_bytes ps cs) ≡ length ps
unfolding xor_bytes
length-xor_bytes [] cs = refl
length-xor_bytes (p ∷ ps) [] = refl
length-xor_bytes (p ∷ ps) (c ∷ cs) = ap suc (length-xor_bytes ps cs)

pub xor_bytes-xor_bytes :
    (ps cs : List ℕ) → All IsByte ps → All IsByte cs → xor_bytes (xor_bytes ps cs) cs ≡ ps
unfolding xor_bytes
xor_bytes-xor_bytes [] cs h k = refl
xor_bytes-xor_bytes (p ∷ ps) [] h k = refl
xor_bytes-xor_bytes (p ∷ ps) (c ∷ cs) h k =
    let e = (xor-IsByte p c h.0 k.0).1 in let r = xor_bytes-xor_bytes ps cs h.1 k.1 in cc

pub repeat-All : (n b : ℕ) → IsByte b → All IsByte (repeat n b)
repeat-All zero b h = tt
repeat-All (suc n) b h = (h, repeat-All n b h)
