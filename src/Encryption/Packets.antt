-- ===== src/Encryption/Packets.antt =====
-- src/encryption.rs, `encrypt_data` and `decrypt_data`: one message as a packet.
use satel_integra.Common.{max}
use satel_integra.Common.{
  ℕ, zero, suc, ◌+◌, ◌-◌, ◌%◌, ◌≤◌, ◌<◌, ◌≡◌, List, [], ◌∷◌, ◌++◌, length, take, drop, All,
  length-append, arith, refl, ap, ◌∙◌,
}
use satel_integra.Error.{ok}
use satel_integra.Encryption.{Aes, repeat, encrypt, decrypt, encrypt_data, decrypt_data}
use satel_integra.Encryption.Bytes.{IsByte, repeat-All}
use satel_integra.Encryption.Chain.{IsCipher, decrypt-encrypt}

pub append-All : (xs ys : List ℕ) → All IsByte xs → All IsByte ys → All IsByte (xs ++ ys)
append-All [] ys h k = k
append-All (x ∷ xs) ys h k = (h.0, append-All xs ys h.1 k)

pub length-repeat : (n b : ℕ) → length (repeat n b) ≡ n
length-repeat zero b = refl
length-repeat (suc n) b = ap suc (length-repeat n b)

pub take-length : (xs : List ℕ) → take (length xs) xs ≡ xs
take-length [] = refl
take-length (x ∷ xs) = ap (λ t. x ∷ t) (take-length xs)

module _ (aes : Aes) (cipher : IsCipher aes) where
  decrypt_data-whole :
      (size : ℕ) (rest : List ℕ)
      → 16 ≤ size
      → length rest ≡ size
      → decrypt_data aes (size ∷ rest) ≡ ok (drop 6 (decrypt aes (take size rest)))
  unfolding decrypt_data
  decrypt_data-whole size rest h e = ground arith

  -- The packet of a message of 1 to 249 bytes is decrypted to the message, behind which there are
  -- zeros up to the length 10 if it is shorter than that.
  pub decrypt_data-encrypt_data :
      (b : ℕ) (bs : List ℕ)
      → All IsByte (b ∷ bs)
      → length (b ∷ bs) < 250
      → decrypt_data aes (encrypt_data aes (b ∷ bs))
        ≡ ok ((b ∷ bs) ++ repeat (10 - length (b ∷ bs)) 0)
  unfolding encrypt_data
  decrypt_data-encrypt_data b bs h l =
      let count = max 16 (6 + length (b ∷ bs)) in
      let zeros = count - (6 + length (b ∷ bs)) in
      let padding = repeat zeros 0 in
      let plain = repeat 6 0 ++ ((b ∷ bs) ++ padding) in
      let k : All IsByte plain =
        append-All (repeat 6 0) ((b ∷ bs) ++ padding) (repeat-All 6 0 (omega arith))
          (append-All (b ∷ bs) padding h (repeat-All zeros 0 (omega arith))) in
      let r = decrypt-encrypt aes cipher plain k in
      let a = length-append bs padding in
      let z : length padding ≡ zeros = length-repeat zeros 0 in
      let n : length plain ≡ count = omega arith in
      let m : count % 256 ≡ count = omega arith in
      let e : length (encrypt aes plain) ≡ count = r.1 ∙ n in
      let t : take count (encrypt aes plain) ≡ encrypt aes plain =
        rw e at (take-length (encrypt aes plain)) in
      let w = decrypt_data-whole count (encrypt aes plain) (omega arith) e in
      let q : zeros ≡ 10 - length (b ∷ bs) = omega arith in
      let sealed = encrypt aes plain in
      let s₁ = ap (λ n. decrypt_data aes (n ∷ sealed)) m in
      let s₂ = ap (λ x. decrypt aes x) t ∙ r.0 in
      let s₃ : ok (drop 6 (decrypt aes (take count sealed))) ≡ ok ((b ∷ bs) ++ padding) =
        ap (λ x. ok (drop 6 x)) s₂ in
      let s₄ = ap (λ z. ok ((b ∷ bs) ++ repeat z 0)) q in s₁ ∙ (w ∙ (s₃ ∙ s₄))
