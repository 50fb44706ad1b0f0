-- ===== src/Codec/Runs.antt =====
-- Runs of the codec, and its theorems at concrete buffers.
use satel_integra.Common.{ℕ, ◌≤◌, ◌≡◌, refl, none, some, List, [], ◌∷◌, ◌++◌, length, arith}
use satel_integra.Codec.{position_of, ends_in_marker, encode, decode, Decoded, calculate_crc}
use satel_integra.Codec.Decoding.{decode_total}
use satel_integra.Codec.Soundness.{Carries, decode-Carries}
use satel_integra.Codec.RoundTrip.{decode-encode, decode-encode_lost, IsNoise}

abbrev request : List ℕ
request = 0x7E ∷ 0xFE ∷ 0x02 ∷ []

crc_of_version_request : calculate_crc (0x7E ∷ []) ≡ 0xD860
unfolding calculate_crc
crc_of_version_request = refl

marker_is_stuffed : encode (0xFE ∷ []) ≡ 0xFE ∷ 0xFE ∷ 0xFE ∷ 0xF0 ∷ 0xD8 ∷ 0xE0 ∷ 0xFE ∷ 0x0D ∷ []
unfolding encode
marker_is_stuffed = refl

noise : List ℕ
noise = 0xFE ∷ 0x0D ∷ 0x55 ∷ []

noise-IsNoise : IsNoise noise
unfolding noise position_of ends_in_marker
noise-IsNoise = (refl, refl)

decode-encode_example :
    decode 1 0 (noise ++ (encode request ++ (1 ∷ 2 ∷ [])))
    ≡ some (record { frame = some request; src = 1 ∷ 2 ∷ []; crc_errors = 0 })
decode-encode_example =
    decode-encode 0 0 noise request (1 ∷ 2 ∷ []) noise-IsNoise (λ e. omega arith)

decode-encode_lost_example :
    (d : Decoded) × (decode 2 0 (encode (0x0D ∷ 1 ∷ [])) ≡ some d)
    × (d.frame ≡ none)
    × (d.crc_errors ≡ 0)
decode-encode_lost_example = decode-encode_lost 0 0 (1 ∷ [])

decode_total_example : (d : Decoded) × (decode 3 0 (0xFE ∷ 0xFE ∷ []) ≡ some d) × (length d.src ≤ 2)
decode_total_example = decode_total 0 (0xFE ∷ 0xFE ∷ [])

decoded_request :
    decode 1 0 (encode request) ≡ some (record { frame = some request; src = []; crc_errors = 0 })
unfolding decode encode
decoded_request = refl

decode-Carries_example : Carries (encode request) request []
decode-Carries_example = decode-Carries 1 0 (encode request) _ request decoded_request refl
