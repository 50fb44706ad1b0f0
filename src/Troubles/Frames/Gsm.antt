-- ===== src/Troubles/Frames/Gsm.antt =====
-- src/parsers/system.rs, `process_troubles_part8`.
use satel_integra.Common.{
  ℕ, zero, suc, ◌+◌, ◌*◌, ◌||◌, Option, some, List, [], ◌∷◌, ◌==◌, length, get_elem?, ◌≤◌, ◌≡◌,
  refl, arith, ◌-◌, take, drop, length-drop, length-take_le,
}
use satel_integra.Common.Panics.{
  ◌>>=◌, slice, some-Succeeds, Succeeds, bind-Succeeds, get_elem?-Succeeds, slice-le,
}
use satel_integra.Error.{Result}
use satel_integra.Parsers.Bits.{bit_set}
use satel_integra.Troubles.Custom.{from_be_bytes}
use satel_integra.Troubles.Frames.Reading.{parse_part, outcome, long_enough, outcome-parse_part}
use satel_integra.Troubles.Parts.{GsmModuleTroubles, TroublesPart8Data}

-- A chunk of eight bytes.
read_gsm_module : ℕ → List ℕ → Option GsmModuleTroubles
read_gsm_module addr chunk = do
  b0 ← get_elem? chunk 0
  b1 ← get_elem? chunk 1
  b2 ← get_elem? chunk 2
  b3 ← get_elem? chunk 3
  c4 ← get_elem? chunk 4
  c5 ← get_elem? chunk 5
  c6 ← get_elem? chunk 6
  c7 ← get_elem? chunk 7
  some (record {
    module_address = addr;
    no_ethm_mon_station_1 = bit_set b0 0;
    no_ethm_mon_station_2 = bit_set b0 1;
    no_gprs_sim1_mon_station_1 = bit_set b0 2;
    no_gprs_sim1_mon_station_2 = bit_set b0 3;
    no_gprs_sim2_mon_station_1 = bit_set b0 4;
    no_gprs_sim2_mon_station_2 = bit_set b0 5;
    no_sms_sim1_mon_station_1 = bit_set b0 6;
    no_sms_sim1_mon_station_2 = bit_set b0 7;
    no_sms_sim2_mon_station_1 = bit_set b1 0;
    no_sms_sim2_mon_station_2 = bit_set b1 1;
    wrong_sim1_pin = bit_set b1 2;
    wrong_sim2_pin = bit_set b1 3;
    sim1_logging_error = bit_set b1 4;
    sim2_logging_error = bit_set b1 5;
    sim1_credit_low = bit_set b1 6;
    sim2_credit_low = bit_set b1 7;
    sim1_sms_error = bit_set b2 0;
    sim2_sms_error = bit_set b2 1;
    gsm_jamming = bit_set b2 2;
    settings_crc_error = bit_set b2 3;
    missing_module = bit_set b2 4;
    changed_module = bit_set b2 5;
    satel_server_conn_error = bit_set b2 6;
    mail_server_conn_error = bit_set b2 7;
    ntp_server_conn_error = bit_set b3 0;
    sim1_cme_error = from_be_bytes c4 c5;
    sim2_cme_error = from_be_bytes c6 c7;
  })

-- `for addr in 0..8`: `count` rounds from `addr` on.
read_gsm_modules : List ℕ → ℕ → ℕ → Option (List GsmModuleTroubles)
unfolding read_gsm_module
read_gsm_modules bytes addr zero = some []
read_gsm_modules bytes addr (suc count) = do
  chunk ← slice bytes (addr * 8) ((addr + 1) * 8)
  gsm_module ← read_gsm_module addr chunk
  more ← read_gsm_modules bytes (addr + 1) count
  some (gsm_module ∷ more)

read_part8 : ℕ → ℕ → List ℕ → Option TroublesPart8Data
unfolding read_gsm_modules
read_part8 now first bytes = do
  gsm_modules ← read_gsm_modules bytes 0 8
  some (record { is_memory = first == 0x31; gsm_modules = gsm_modules; read_at = now })

read_gsm_module-Succeeds :
    (addr : ℕ) (chunk : List ℕ) → 8 ≤ length chunk → Succeeds (read_gsm_module addr chunk)
unfolding read_gsm_module
read_gsm_module-Succeeds addr chunk h =
    bind-Succeeds (get_elem?-Succeeds chunk 0 (omega arith)) λ b0.
      bind-Succeeds (get_elem?-Succeeds chunk 1 (omega arith)) λ b1.
        bind-Succeeds (get_elem?-Succeeds chunk 2 (omega arith)) λ b2.
          bind-Succeeds (get_elem?-Succeeds chunk 3 (omega arith)) λ b3.
            bind-Succeeds (get_elem?-Succeeds chunk 4 (omega arith)) λ c4.
              bind-Succeeds (get_elem?-Succeeds chunk 5 (omega arith)) λ c5.
                bind-Succeeds (get_elem?-Succeeds chunk 6 (omega arith)) λ c6.
                  bind-Succeeds (get_elem?-Succeeds chunk 7 (omega arith)) λ c7. some-Succeeds _

read_gsm_modules-Succeeds :
    (bytes : List ℕ) (addr count : ℕ)
    → (addr + count) * 8 ≤ length bytes
    → Succeeds (read_gsm_modules bytes addr count)
unfolding read_gsm_modules
read_gsm_modules-Succeeds bytes addr zero h = some-Succeeds _
read_gsm_modules-Succeeds bytes addr (suc count) h =
    let chunk = take ((addr + 1) * 8 - addr * 8) (drop (addr * 8) bytes) in
    let long : 8 ≤ length chunk = omega (
      arith,
      length-take_le ((addr + 1) * 8 - addr * 8) (drop (addr * 8) bytes)
          (omega (arith, length-drop (addr * 8) bytes)),
    ) in
    rw (slice-le bytes (addr * 8) ((addr + 1) * 8) (omega arith) (omega arith)) (
      bind-Succeeds (read_gsm_module-Succeeds addr chunk long) λ gsm_module.
        bind-Succeeds (read_gsm_modules-Succeeds bytes (addr + 1) count (omega arith))
          λ more. some-Succeeds _)

read_part8-Succeeds :
    (now first : ℕ) (bytes : List ℕ) → 64 ≤ length bytes → Succeeds (read_part8 now first bytes)
unfolding read_part8
read_part8-Succeeds now first bytes h =
    bind-Succeeds (read_gsm_modules-Succeeds bytes 0 8 (omega arith)) λ gsm_modules. some-Succeeds _

unfoldable pub process_troubles_part8 : ℕ → List ℕ → Option (Result TroublesPart8Data)
unfolding parse_part read_part8
process_troubles_part8 now =
    parse_part (λ first. (first == 0x30) || (first == 0x31)) 64 (read_part8 now)

pub outcome-process_troubles_part8 :
    (now : ℕ) (bytes : List ℕ)
    → outcome (process_troubles_part8 now (0x30 ∷ bytes)) ≡ some (long_enough 64 bytes)
unfolding process_troubles_part8
outcome-process_troubles_part8 now bytes =
    outcome-parse_part (λ first. (first == 0x30) || (first == 0x31)) 64 (read_part8 now) 0x30 bytes
      refl (read_part8-Succeeds now 0x30 bytes)

pub outcome-process_troubles_part8_memory :
    (now : ℕ) (bytes : List ℕ)
    → outcome (process_troubles_part8 now (0x31 ∷ bytes)) ≡ some (long_enough 64 bytes)
unfolding process_troubles_part8
outcome-process_troubles_part8_memory now bytes =
    outcome-parse_part (λ first. (first == 0x30) || (first == 0x31)) 64 (read_part8 now) 0x31 bytes
      refl (read_part8-Succeeds now 0x31 bytes)
