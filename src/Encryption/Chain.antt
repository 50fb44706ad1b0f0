-- ===== src/Encryption/Chain.antt =====
-- src/encryption.rs: decrypting what was encrypted.
use satel_integra.Common.{
  ℕ, zero, suc, ◌*◌, ◌/◌, ◌≤◌, ◌≡◌, List, [], ◌∷◌, ◌++◌, length, take, drop, All, length-append,
  length-drop, take-append-drop, take-length_append, drop-length_append, arith, refl, ap, ◌∙◌,
}
use satel_integra.Encryption.{
  Aes, xor_bytes, repeat, encrypt_blocks, encrypt, decrypt_blocks, decrypt,
}
use satel_integra.Encryption.Bytes.{
  IsByte, xor_bytes-All, length-xor_bytes, xor_bytes-xor_bytes, repeat-All,
}

abbrev pub IsBlock : List ℕ → Type 0
IsBlock b = (length b ≡ 16) × All IsByte b

-- What a block cipher promises, on blocks of sixteen bytes.
pub record IsCipher (aes : Aes) : Type 0 where
  pub encrypt_block-IsBlock : (b : List ℕ) → IsBlock b → IsBlock (aes.encrypt_block b)
  pub decrypt_block-encrypt_block :
      (b : List ℕ) → IsBlock b → aes.decrypt_block (aes.encrypt_block b) ≡ b

take-All : (n : ℕ) (xs : List ℕ) → All IsByte xs → All IsByte (take n xs)
take-All zero xs h = tt
take-All (suc n) [] h = tt
take-All (suc n) (x ∷ xs) h = (h.0, take-All n xs h.1)

drop-All : (n : ℕ) (xs : List ℕ) → All IsByte xs → All IsByte (drop n xs)
drop-All zero xs h = h
drop-All (suc n) [] h = tt
drop-All (suc n) (x ∷ xs) h = drop-All n xs h.1

length-take : (n : ℕ) (xs : List ℕ) → n ≤ length xs → length (take n xs) ≡ n
length-take zero xs h = refl
length-take (suc n) [] h = absurd (omega arith)
length-take (suc n) (x ∷ xs) h = ap suc (length-take n xs (omega arith))

module _ (aes : Aes) (cipher : IsCipher aes) where
  -- The block that a round sends.
  round-IsBlock :
      (buffer cv : List ℕ)
      → 16 ≤ length buffer
      → All IsByte buffer
      → IsBlock cv
      → IsBlock (xor_bytes (take 16 buffer) cv)
  round-IsBlock buffer cv h k c = (
    length-xor_bytes (take 16 buffer) cv ∙ length-take 16 buffer h,
    xor_bytes-All (take 16 buffer) cv (take-All 16 buffer k) c.1,
  )

  length-encrypt_blocks :
      (n : ℕ) (cv buffer : List ℕ)
      → n * 16 ≤ length buffer
      → All IsByte buffer
      → IsBlock cv
      → length (encrypt_blocks aes n cv buffer) ≡ length buffer
  unfolding encrypt_blocks
  length-encrypt_blocks zero cv buffer h k c = length-xor_bytes buffer (aes.encrypt_block cv)
  length-encrypt_blocks (suc n) cv buffer h k c =
      let l = length-drop 16 buffer in
      let p = aes.encrypt_block (xor_bytes (take 16 buffer) cv) in
      let b = cipher.encrypt_block-IsBlock _ (round-IsBlock buffer cv (omega arith) k c) in
      let ih = length-encrypt_blocks n p (drop 16 buffer) (omega arith) (drop-All 16 buffer k) b in
      let a = length-append p (encrypt_blocks aes n p (drop 16 buffer)) in
      let b0 : length p ≡ 16 = b.0 in omega arith

  decrypt_blocks-encrypt_blocks :
      (n : ℕ) (cv buffer : List ℕ)
      → n * 16 ≤ length buffer
      → All IsByte buffer
      → IsBlock cv
      → decrypt_blocks aes n cv (encrypt_blocks aes n cv buffer) ≡ buffer
  unfolding encrypt_blocks decrypt_blocks
  decrypt_blocks-encrypt_blocks zero cv buffer h k c =
      xor_bytes-xor_bytes buffer (aes.encrypt_block cv) k (cipher.encrypt_block-IsBlock cv c).1
  decrypt_blocks-encrypt_blocks (suc n) cv buffer h k c =
      let l = length-drop 16 buffer in
      let x = xor_bytes (take 16 buffer) cv in
      let p = aes.encrypt_block x in
      let r = round-IsBlock buffer cv (omega arith) k c in
      let b : IsBlock p = cipher.encrypt_block-IsBlock x r in
      let rest = encrypt_blocks aes n p (drop 16 buffer) in
      let t : take 16 (p ++ rest) ≡ p = rw b.0 at (take-length_append p rest) in
      let d : drop 16 (p ++ rest) ≡ rest = rw b.0 at (drop-length_append p rest) in
      let ih =
        decrypt_blocks-encrypt_blocks n p (drop 16 buffer) (omega arith) (drop-All 16 buffer k) b in
      let u : aes.decrypt_block p ≡ x = cipher.decrypt_block-encrypt_block x r in
      let v : xor_bytes x cv ≡ take 16 buffer =
        xor_bytes-xor_bytes (take 16 buffer) cv (take-All 16 buffer k) c.1 in
      let w = take-append-drop 16 buffer in rw (t, d, u, v, ih) w

  zero-IsBlock : IsBlock (aes.encrypt_block (repeat 16 0))
  zero-IsBlock = cipher.encrypt_block-IsBlock (repeat 16 0) (refl, repeat-All 16 0 (omega arith))

  pub length-encrypt :
      (buffer : List ℕ) → All IsByte buffer → length (encrypt aes buffer) ≡ length buffer
  unfolding encrypt
  length-encrypt buffer k =
      length-encrypt_blocks (length buffer / 16) (aes.encrypt_block (repeat 16 0)) buffer
        (omega arith) k zero-IsBlock

  -- With a block cipher that decrypts what it encrypts, `decrypt` gives back every buffer of bytes
  -- that `encrypt` was given, whole blocks or not, and neither changes its length.
  pub decrypt-encrypt :
      (buffer : List ℕ)
      → All IsByte buffer
      → (decrypt aes (encrypt aes buffer) ≡ buffer) × (length (encrypt aes buffer) ≡ length buffer)
  unfolding encrypt decrypt
  decrypt-encrypt buffer k =
      let l : length (encrypt aes buffer) ≡ length buffer = length-encrypt buffer k in
      let cv = aes.encrypt_block (repeat 16 0) in
      let e =
        decrypt_blocks-encrypt_blocks (length buffer / 16) cv buffer (omega arith) k zero-IsBlock in
      (rw l e, l)
