-- ===== src/Error.antt =====
-- src/error.rs: the errors of the library, and results that carry them. The messages of the variants
-- that hold a text and the wrapped I/O errors are left out: no code branches on them.
use satel_integra.Common.{ℕ, ◌≡◌, refl, Bool, true, false, inl, inr, ◌⊎◌}

pub data SatelError : Type 0 where
  io serial timeout not_connected stream_closed connection_lost invalid_crc : SatelError
  invalid_frame message_expired worker_dropped already_connected : SatelError
  temperature_sensor_error temperature_not_supported_or_time_out : SatelError
  temp_too_many_errors state_poisoned invalid_user_code no_access can_not_arm : SatelError
  integra_result_error : ℕ → SatelError
  invalid_config invalid_integration_key encryption_error : SatelError
  invalid_encrypted_data_length : ℕ → SatelError
  panel_version_unknown : SatelError

pub data Result {ℓ} (T : Type ℓ) : Type ℓ where
  err : SatelError → Result T
  ok : T → Result T

-- The operator `?`: the rest is done with the value, and an error is passed on.
infixl 5 ◌>>=◌ ◌>>◌
abbrev pub ◌>>=◌ {ℓ₁ ℓ₂} : {T : Type ℓ₁} {U : Type ℓ₂} → Result T → (T → Result U) → Result U
err reason >>= next = err reason
ok value >>= next = next value

abbrev pub ◌>>◌ {ℓ} : {U : Type ℓ} → Result (Unit {0}) → Result U → Result U
first >> second = first >>= λ done. second

-- `if !condition { return Err(error) }`.
abbrev pub guard : Bool → SatelError → Result (Unit {0})
guard true e = ok tt
guard false e = err e

pub Result-cases {ℓ} :
    {T : Type ℓ} (r : Result T)
    → ((value : T) × (r ≡ ok value)) ⊎ ((reason : SatelError) × (r ≡ err reason))
Result-cases (err reason) = inr (reason, refl)
Result-cases (ok value) = inl (value, refl)
