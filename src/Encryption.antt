-- ===== src/Encryption.antt =====
-- src/encryption.rs: the key, the chained cipher of the ETHM-1 Plus and the packets of one message.
-- AES-192 is the crate aes: its two block functions are a parameter.
pub mod Bytes
pub mod Chain
pub mod Packets
pub mod Stream
pub mod Session
mod Runs
use satel_integra.Common.{
  ℕ, zero, suc, ◌+◌, ◌-◌, ◌/◌, ◌%◌, max, ◌==◌, Bool, true, false, not, ◌&&◌, ◌||◌, List, [], ◌∷◌,
  ◌++◌, length, take, drop, bit_xor, leb, ltb, if◌then◌else◌,
}
use satel_integra.Error.{SatelError, Result, ok, err}

-- The cipher under one key.
pub record Aes : Type 0 where
  pub encrypt_block : List ℕ → List ℕ
  pub decrypt_block : List ℕ → List ℕ

abbrev pub repeat : ℕ → ℕ → List ℕ
repeat zero b = []
repeat (suc n) b = b ∷ repeat n b

-- `key[i] = b; key[i + 12] = b` for i below 12, over the key padded with spaces.
unfoldable pub derive_aes_key : List ℕ → List ℕ
derive_aes_key integration_key =
    let half = take 12 (integration_key ++ repeat 12 0x20) in half ++ half

-- `p[i] ^= cv[i]` for each byte of the first list.
pub xor_bytes : List ℕ → List ℕ → List ℕ
xor_bytes [] cv = []
xor_bytes (p ∷ ps) [] = p ∷ ps
xor_bytes (p ∷ ps) (c ∷ cs) = bit_xor p c ∷ xor_bytes ps cs

module _ (aes : Aes) where
  -- The loop: as many rounds as there are whole blocks, then the rest.
  unfoldable pub encrypt_blocks : ℕ → List ℕ → List ℕ → List ℕ
  unfolding xor_bytes
  encrypt_blocks zero cv buffer = xor_bytes buffer (aes.encrypt_block cv)
  encrypt_blocks (suc n) cv buffer =
      let p = aes.encrypt_block (xor_bytes (take 16 buffer) cv) in
      p ++ encrypt_blocks n p (drop 16 buffer)

  unfoldable pub encrypt : List ℕ → List ℕ
  unfolding encrypt_blocks
  encrypt buffer = encrypt_blocks (length buffer / 16) (aes.encrypt_block (repeat 16 0)) buffer

  unfoldable pub decrypt_blocks : ℕ → List ℕ → List ℕ → List ℕ
  unfolding xor_bytes
  decrypt_blocks zero cv buffer = xor_bytes buffer (aes.encrypt_block cv)
  decrypt_blocks (suc n) cv buffer =
      let temp = take 16 buffer in
      xor_bytes (aes.decrypt_block temp) cv ++ decrypt_blocks n temp (drop 16 buffer)

  unfoldable pub decrypt : List ℕ → List ℕ
  unfolding decrypt_blocks
  decrypt buffer = decrypt_blocks (length buffer / 16) (aes.encrypt_block (repeat 16 0)) buffer

  -- `bytes_count as u8` keeps the lowest byte.
  unfoldable pub encrypt_data : List ℕ → List ℕ
  unfolding encrypt
  encrypt_data [] = []
  encrypt_data (b ∷ bs) =
      let bytes_count = max 16 (6 + length (b ∷ bs)) in
      let data_bytes = repeat 6 0 ++ ((b ∷ bs) ++ repeat (bytes_count - (6 + length (b ∷ bs))) 0) in
      bytes_count % 256 ∷ encrypt data_bytes

  unfoldable pub decrypt_data : List ℕ → Result (List ℕ)
  unfolding decrypt
  decrypt_data [] = ok []
  decrypt_data (len_prefix ∷ rest) =
      let size = length (len_prefix ∷ rest) in
      if ltb size 17
      then err (SatelError.invalid_encrypted_data_length size)
      else if ltb size (1 + len_prefix) || ltb len_prefix 16
      then err (SatelError.invalid_encrypted_data_length size)
      else ok (drop 6 (decrypt (take len_prefix rest)))
