-- ===== src/Parsers/Clock.antt =====
-- src/parsers/system.rs, `process_rtc_and_status`: the panel's clock and its status bits. What chrono
-- makes of a date and a time in the local zone is the argument `single`, `none` where it is no single
-- point in time; `Local::now()` is `now`.
use satel_integra.Common.{
  ℕ, suc, leb_of_le, ◌+◌, ◌*◌, ◌/◌, ◌%◌, ◌^◌, ◌<◌, ◌≡◌, refl, Bool, true, Option, List, ◌∷◌, ◌==◌,
  leb, bit_and, if◌then◌else◌, length, every, every-at, ==_iff, arith,
}
use satel_integra.Error.{Result, ok, ◌>>=◌}
use satel_integra.State.{SystemStatus}
use satel_integra.Parsers.Bits.{bit_set}
use satel_integra.Parsers.Versions.{byte_at}
use satel_integra.Parsers.Zones.{frame_data}
use mathlib.Core.Option.{get_or}

unfoldable pub bcd_to_u8 : ℕ → ℕ
bcd_to_u8 bcd = (bcd / 16 * 10 + bit_and bcd 15) % 2 ^ 8

-- A date and a time of day.
pub record DateTime : Type 0 where
  pub year : ℕ
  pub month : ℕ
  pub day : ℕ
  pub hour : ℕ
  pub min : ℕ
  pub sec : ℕ

-- The five bytes from the month to the second, the first at `at`.
date_from : ℕ → List ℕ → ℕ → DateTime
unfolding bcd_to_u8
date_from year bytes at = record {
  year = year;
  month = bcd_to_u8 (byte_at bytes at);
  day = bcd_to_u8 (byte_at bytes (at + 1));
  hour = bcd_to_u8 (byte_at bytes (at + 2));
  min = bcd_to_u8 (byte_at bytes (at + 3));
  sec = bcd_to_u8 (byte_at bytes (at + 4));
}

-- Eight bytes have a year of four digits, seven one of two.
date_and_status : List ℕ → DateTime × ℕ
unfolding date_from
date_and_status bytes =
    if leb 8 (length bytes)
    then (
      date_from (bcd_to_u8 (byte_at bytes 0) * 100 + bcd_to_u8 (byte_at bytes 1)) bytes 2,
      byte_at bytes 7,
    )
    else (date_from (2000 + bcd_to_u8 (byte_at bytes 0)) bytes 1, byte_at bytes 6)

status_of : (DateTime → Option ℕ) → ℕ → DateTime × ℕ → SystemStatus
status_of single now (date, status_byte) = record {
  service_mode = bit_set status_byte 7;
  troubles_present = bit_set status_byte 6;
  troubles_memory = bit_set status_byte 5;
  rtc = get_or (single date) now;
}

unfoldable pub process_rtc_and_status : (DateTime → Option ℕ) → ℕ → List ℕ → Result SystemStatus
unfolding frame_data date_and_status status_of
process_rtc_and_status single now frame = do
  payload ← frame_data 0x1A 7 frame
  ok (status_of single now (date_and_status payload))

-- Two decimal digits in a byte, as the panel sends them.
abbrev pub to_bcd : ℕ → ℕ
to_bcd n = n / 10 * 16 + n % 10

abbrev bcd_round : ℕ → Bool
bcd_round n = bcd_to_u8 (to_bcd n) == n

pub bcd_to_u8-to_bcd : (n : ℕ) → n < 100 → bcd_to_u8 (to_bcd n) ≡ n
bcd_to_u8-to_bcd n h =
    (==_iff (bcd_to_u8 (to_bcd n)) n).0
      (every-at bcd_round 100 n (unfold every bcd_to_u8 in refl) h)

-- The bytes of a clock with a year of four digits, the first status byte and what follows it.
abbrev pub clock_frame : DateTime → ℕ → List ℕ → List ℕ
clock_frame d status more =
    0x1A
    ∷ to_bcd (d.year / 100)
    ∷ to_bcd (d.year % 100)
    ∷ to_bcd d.month
    ∷ to_bcd d.day
    ∷ to_bcd d.hour
    ∷ to_bcd d.min
    ∷ to_bcd d.sec
    ∷ status
    ∷ more

pub record IsTwoDigit (d : DateTime) : Type 0 where
  pub year : d.year < 10000
  pub month : d.month < 100
  pub day : d.day < 100
  pub hour : d.hour < 100
  pub min : d.min < 100
  pub sec : d.sec < 100

-- A clock that the panel sends in binary-coded decimals, with a year of four digits, is read as the date
-- and the time that it shows; where the local zone has no single such point in time, the time of the
-- reading is taken. The flags are bits 7, 6 and 5 of the first status byte, whatever follows it: also the
-- flag for the memory of troubles, which the protocol has in bit 5 of the second status byte.
pub process_rtc_and_status-clock_frame :
    (single : DateTime → Option ℕ) (now : ℕ) (d : DateTime) (status : ℕ) (more : List ℕ)
    → IsTwoDigit d
    → process_rtc_and_status single now (clock_frame d status more)
      ≡ ok (record {
        service_mode = bit_set status 7;
        troubles_present = bit_set status 6;
        troubles_memory = bit_set status 5;
        rtc = get_or (single d) now;
      })
unfolding process_rtc_and_status
process_rtc_and_status-clock_frame single now d status more h =
    let year : d.year / 100 * 100 + d.year % 100 ≡ d.year = omega arith in
    let y = h.year in
    let size = suc (suc (suc (suc (suc (suc (suc (suc (length more)))))))) in
    let least : leb 7 size ≡ true = leb_of_le 7 size (omega arith) in
    let long : leb 8 size ≡ true = leb_of_le 8 size (omega arith) in
    rw
      (
        least,
        long,
        bcd_to_u8-to_bcd (d.year / 100) (omega arith),
        bcd_to_u8-to_bcd (d.year % 100) (omega arith),
        bcd_to_u8-to_bcd d.month h.month,
        bcd_to_u8-to_bcd d.day h.day,
        bcd_to_u8-to_bcd d.hour h.hour,
        bcd_to_u8-to_bcd d.min h.min,
        bcd_to_u8-to_bcd d.sec h.sec,
        year,
      )
      refl
