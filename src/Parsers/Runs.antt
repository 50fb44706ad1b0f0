-- ===== src/Parsers/Runs.antt =====
-- Runs of the parsers, and their theorems at concrete frames.
use satel_integra.Common.{
  ℕ, ◌+◌, ◌*◌, ◌≡◌, ◌↔◌, refl, true, false, Option, some, List, [], ◌∷◌, get_elem?, arith,
}
use satel_integra.Error.{ok, err, SatelError}
use satel_integra.Parsers.Bits.{
  bit_set, contains, parse_bit_states, flag_at, get_elem?-parse_bit_states,
}
use satel_integra.Parsers.Zones.{frame_data, IsMaskOf, frame_data_iff}
use satel_integra.Parsers.Clock.{
  DateTime, IsTwoDigit, bcd_to_u8, clock_frame, process_rtc_and_status,
  process_rtc_and_status-clock_frame,
}
use mathlib.Core.Option.{get_or}
use satel_integra.Parsers.Temperature.{
  sub_ℕ, answer, temperature_request, process_zone_temperature, process_zone_temperature-request,
}

get_elem?-parse_bit_states_example :
    get_elem? (parse_bit_states (0 ∷ 0x80 ∷ []) (15 ∷ [])) 15 ≡ flag_at (15 ∷ []) (0 ∷ 0x80 ∷ []) 15
get_elem?-parse_bit_states_example =
    get_elem?-parse_bit_states (0 ∷ 0x80 ∷ []) (15 ∷ []) 15 (omega arith)

sixteenth_zone : flag_at (15 ∷ []) (0 ∷ 0x80 ∷ []) 15 ≡ some true
unfolding flag_at contains
sixteenth_zone = refl

frame_data_iff_example :
    ((frame_data 0x13 4 (0x13 ∷ 1 ∷ 0 ∷ 0 ∷ 0 ∷ []) ≡ ok (1 ∷ 0 ∷ 0 ∷ 0 ∷ []))
      ↔ IsMaskOf 0x13 4 (1 ∷ 0 ∷ 0 ∷ 0 ∷ []) (0x13 ∷ 1 ∷ 0 ∷ 0 ∷ 0 ∷ []))
    × ((frame_data 0x13 4 (0x13 ∷ 1 ∷ 0 ∷ 0 ∷ 0 ∷ []) ≡ err SatelError.invalid_frame)
        ↔ (¬ ((p : List ℕ) × IsMaskOf 0x13 4 p (0x13 ∷ 1 ∷ 0 ∷ 0 ∷ 0 ∷ []))))
frame_data_iff_example = frame_data_iff 0x13 4 _ (1 ∷ 0 ∷ 0 ∷ 0 ∷ [])

process_zone_temperature-request_example :
    process_zone_temperature (answer (temperature_request 256) (0 ∷ 153 ∷ []))
    ≡ ok (256, sub_ℕ 153 110)
process_zone_temperature-request_example =
    process_zone_temperature-request 256 0 153 [] (omega arith) (omega arith) (omega arith)

-- 27 February 2026, 23:59:07, in service mode.
abbrev evening : DateTime
evening = record { year = 2026; month = 2; day = 27; hour = 23; min = 59; sec = 7 }

abbrev as_sum : DateTime → Option ℕ
as_sum d = some (d.day * 100 + d.sec)

two_digits : IsTwoDigit evening
two_digits = record {
  year = omega arith;
  month = omega arith;
  day = omega arith;
  hour = omega arith;
  min = omega arith;
  sec = omega arith;
}

process_rtc_and_status-clock_frame_example :
    process_rtc_and_status as_sum 3 (clock_frame evening 0x80 (0x20 ∷ []))
    ≡ ok (record {
      service_mode = bit_set 0x80 7;
      troubles_present = bit_set 0x80 6;
      troubles_memory = bit_set 0x80 5;
      rtc = get_or (as_sum evening) 3;
    })
process_rtc_and_status-clock_frame_example =
    process_rtc_and_status-clock_frame as_sum 3 evening 0x80 (0x20 ∷ []) two_digits

-- The panel's memory of troubles is set, in the second status byte, and the flag is not.
memory_unseen :
    process_rtc_and_status as_sum 3 (clock_frame evening 0x80 (0x20 ∷ []))
    ≡ ok (record {
      service_mode = true;
      troubles_present = false;
      troubles_memory = false;
      rtc = 2707;
    })
unfolding process_rtc_and_status bcd_to_u8
memory_unseen = refl

-- Seven bytes: the year has two digits.
short_clock :
    process_rtc_and_status as_sum 3 (0x1A ∷ 0x26 ∷ 0x02 ∷ 0x27 ∷ 0x23 ∷ 0x59 ∷ 0x07 ∷ 0x60 ∷ [])
    ≡ ok (record {
      service_mode = false;
      troubles_present = true;
      troubles_memory = true;
      rtc = 2707;
    })
unfolding process_rtc_and_status bcd_to_u8
short_clock = refl
