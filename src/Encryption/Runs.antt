-- ===== src/Encryption/Runs.antt =====
-- The cipher at a concrete block function, and a packet.
use satel_integra.Common.{some, arith}
use satel_integra.Common.{ℕ, ◌-◌, ◌≡◌, List, [], ◌∷◌, ◌++◌, length, All, refl, ◌∙◌}
use satel_integra.Error.{ok}
use satel_integra.Encryption.{
  Aes, xor_bytes, repeat, encrypt, decrypt, encrypt_data, decrypt_data, derive_aes_key,
}
use satel_integra.Encryption.Bytes.{
  IsByte, xor_bytes-All, length-xor_bytes, xor_bytes-xor_bytes, repeat-All,
}
use satel_integra.Encryption.Chain.{IsCipher, decrypt-encrypt}
use satel_integra.Encryption.Stream.{new_stream, poll_write, receive}
use satel_integra.Encryption.Session.{receive-Ends, receive-poll_write, at_rest, Ends}
use satel_integra.Encryption.Packets.{decrypt_data-encrypt_data}

-- A block function that can be undone: each byte is combined with 0x5A.
abbrev masked : List ℕ → List ℕ
masked b = xor_bytes b (repeat 16 0x5A)

abbrev masking : Aes
masking = record { encrypt_block = masked; decrypt_block = masked }

mask-All : All IsByte (repeat 16 0x5A)
mask-All = repeat-All 16 0x5A (omega arith)

masking-IsCipher : IsCipher masking
masking-IsCipher = record {
  encrypt_block-IsBlock = λ b h.
      (length-xor_bytes b (repeat 16 0x5A) ∙ h.0, xor_bytes-All b (repeat 16 0x5A) h.1 mask-All);
  decrypt_block-encrypt_block = λ b h. xor_bytes-xor_bytes b (repeat 16 0x5A) h.1 mask-All;
}

abbrev message : List ℕ
message = 0xFE ∷ 0xFE ∷ 0x7E ∷ 0xD8 ∷ 0x60 ∷ 0xFE ∷ 0x0D ∷ []

decrypt-encrypt_example :
    (decrypt masking (encrypt masking (message ++ (message ++ message)))
      ≡ message ++ (message ++ message))
    × (length (encrypt masking (message ++ (message ++ message)))
        ≡ length (message ++ (message ++ message)))
decrypt-encrypt_example =
    decrypt-encrypt masking masking-IsCipher (message ++ (message ++ message)) (ground arith)

decrypt_data-encrypt_data_example :
    decrypt_data masking (encrypt_data masking message) ≡ ok (message ++ repeat (10 - 7) 0)
decrypt_data-encrypt_data_example =
    decrypt_data-encrypt_data masking masking-IsCipher 0xFE
      (0xFE ∷ 0x7E ∷ 0xD8 ∷ 0x60 ∷ 0xFE ∷ 0x0D ∷ []) (ground arith) (omega arith)

derive_aes_key_run :
    derive_aes_key (49 ∷ 50 ∷ []) ≡ (49 ∷ 50 ∷ repeat 10 32) ++ (49 ∷ 50 ∷ repeat 10 32)
unfolding derive_aes_key
derive_aes_key_run = refl

receive-Ends_example : Ends (receive masking (3 ∷ 1 ∷ 2 ∷ 3 ∷ 20 ∷ 1 ∷ []) new_stream)
receive-Ends_example = receive-Ends masking (3 ∷ 1 ∷ 2 ∷ 3 ∷ 20 ∷ 1 ∷ []) new_stream

receive-poll_write_example :
    receive masking
      (poll_write masking 51966 77 message new_stream).write_buffer
      (at_rest new_stream)
    ≡ some (record (at_rest new_stream) {
      id_r = 77;
      read_buffer = [] ++ (message ++ repeat (10 - length message) 0);
    })
receive-poll_write_example =
    receive-poll_write masking masking-IsCipher 51966 77 0xFE
      (0xFE ∷ 0x7E ∷ 0xD8 ∷ 0x60 ∷ 0xFE ∷ 0x0D ∷ []) new_stream new_stream (omega arith)
      (omega arith) (omega arith) (omega arith) (ground arith) (omega arith)
