-- ===== src/Parsers/Temperature.antt =====
-- src/parsers/zones.rs, `process_zone_temperature`, and the request that client.rs sends for it. A
-- temperature is counted in half degrees, which the source's f32 holds exactly at these sizes.
use satel_integra.Common.{
  ℕ, ◌+◌, ◌-◌, ◌*◌, ◌%◌, ◌^◌, ◌≤◌, ◌<◌, ◌≡◌, List, [], ◌∷◌, ◌++◌, ◌==◌, leb, if◌then◌else◌, arith,
}
use satel_integra.Error.{SatelError, Result, ok, err, ◌>>=◌}
use satel_integra.Parsers.Zones.{frame_data}

-- `negsuc n` is -(n + 1).
pub data ℤ : Type 0 where
  pos : ℕ → ℤ
  negsuc : ℕ → ℤ

abbrev pub sub_ℕ : ℕ → ℕ → ℤ
sub_ℕ a b = if leb b a then pos (a - b) else negsuc (b - a - 1)

-- The zone and its temperature in half degrees, from the three bytes behind the command: 0x0000 is
-- -55.0 degrees, in steps of 0.5.
read_temperature : List ℕ → Result (ℕ × ℤ)
read_temperature (number ∷ high ∷ low ∷ rest) = do
  let zone_id = if number == 0 then 256 else number
  let temp_raw = high * 2 ^ 8 + low
  if temp_raw == 0xFFFF
      then err SatelError.temperature_sensor_error
      else ok (zone_id, sub_ℕ temp_raw 110)
read_temperature _ = err SatelError.invalid_frame

pub process_zone_temperature : List ℕ → Result (ℕ × ℤ)
unfolding read_temperature
process_zone_temperature frame = frame_data 0x7D 3 frame >>= read_temperature

-- The frame that asks for a zone's temperature; `zone_id as u8` is taken modulo 256.
pub temperature_request : ℕ → List ℕ
temperature_request zone_id = 0x7D ∷ (if zone_id == 256 then 0 else zone_id % 256) ∷ []

abbrev pub answer : List ℕ → List ℕ → List ℕ
answer request reading = request ++ reading

-- The panel's answer repeats the number that it was asked with: then the zone that is read from
-- the answer is the zone that was asked for, and its temperature is `(raw - 110) / 2` degrees.
pub process_zone_temperature-request :
    (zone_id high low : ℕ) (rest : List ℕ)
    → 1 ≤ zone_id
    → zone_id ≤ 256
    → high * 256 + low < 0xFFFF
    → process_zone_temperature (answer (temperature_request zone_id) (high ∷ low ∷ rest))
      ≡ ok (zone_id, sub_ℕ (high * 256 + low) 110)
unfolding process_zone_temperature temperature_request frame_data
process_zone_temperature-request zone_id high low rest lo hi raw = ground arith
