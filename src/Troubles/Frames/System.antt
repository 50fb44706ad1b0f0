-- ===== src/Troubles/Frames/System.antt =====
-- src/parsers/system.rs, `process_troubles_part1`.
use satel_integra.Common.{
  ℕ, not, ◌||◌, Option, some, List, ◌∷◌, ◌==◌, length, get_elem?, ◌≤◌, ◌≡◌, refl, arith,
}
use satel_integra.Common.Panics.{◌>>=◌, some-Succeeds, Succeeds, bind-Succeeds, get_elem?-Succeeds}
use satel_integra.Error.{Result}
use satel_integra.Parsers.Bits.{bit_set}
use satel_integra.Troubles.Frames.Reading.{
  parse_part, bits_of, bits_of-Succeeds, outcome, long_enough, outcome-parse_part,
}
use satel_integra.Troubles.Parts.{TroublesPart1Data}

read_part1 : ℕ → ℕ → List ℕ → Option TroublesPart1Data
read_part1 now first bytes = do
  technical_zones ← bits_of bytes 0 16
  expanders_ac ← bits_of bytes 16 24
  expanders_battery ← bits_of bytes 24 32
  expanders_no_battery ← bits_of bytes 32 40
  b1 ← get_elem? bytes 40
  b2 ← get_elem? bytes 41
  b3 ← get_elem? bytes 42
  p1 ← get_elem? bytes 43
  p2 ← get_elem? bytes 44
  p3 ← get_elem? bytes 45
  p4 ← get_elem? bytes 46
  some (record {
    is_memory = first == 0x20;
    technical_zones = technical_zones;
    expanders_ac = expanders_ac;
    expanders_battery = expanders_battery;
    expanders_no_battery = expanders_no_battery;
    main_board = record {
      out1_trouble = bit_set b1 0;
      out2_trouble = bit_set b1 1;
      out3_trouble = bit_set b1 2;
      out4_trouble = bit_set b1 3;
      kpd_power_trouble = bit_set b1 4;
      ex1_ex2_power_trouble = bit_set b1 5;
      battery_trouble = bit_set b1 6;
      ac_trouble = bit_set b1 7;
      dt1_trouble = bit_set b2 0;
      dt2_trouble = bit_set b2 1;
      dtm_trouble = bit_set b2 2;
      rtc_trouble = bit_set b2 3;
      no_dtr_signal = bit_set b2 4;
      no_battery_present = bit_set b2 5;
      external_modem_init_trouble = bit_set b2 6;
      external_modem_cmd_trouble = bit_set b2 7;
      tel_line_no_voltage = bit_set b3 0;
      tel_line_bad_signal = bit_set b3 1;
      tel_line_no_signal = bit_set b3 2;
      monitoring_station_1_trouble = bit_set b3 3;
      monitoring_station_2_trouble = bit_set b3 4;
      eeprom_rtc_trouble = bit_set b3 5;
      ram_trouble = bit_set b3 6;
      main_panel_restart = bit_set b3 7;
    };
    ethm_ptsa = record {
      ethm_ping_trouble = not (p1 == 0);
      server_id_error = not (p2 == 0);
      no_server_connection = not (p3 == 0);
      no_ethm_mon_station_1 = bit_set p4 0;
      no_ethm_mon_station_2 = bit_set p4 1;
      no_gprs_mon_station_1 = bit_set p4 2;
      no_gprs_mon_station_2 = bit_set p4 3;
      time_server_trouble = bit_set p4 4;
      gsm_init_error = bit_set p4 5;
      ip_mon_station_1_trouble = bit_set p4 6;
      ip_mon_station_2_trouble = bit_set p4 7;
    };
    read_at = now;
  })

read_part1-Succeeds :
    (now first : ℕ) (bytes : List ℕ) → 47 ≤ length bytes → Succeeds (read_part1 now first bytes)
unfolding read_part1
read_part1-Succeeds now first bytes h =
    bind-Succeeds (bits_of-Succeeds bytes 0 16 (omega arith) (omega arith)) λ technical_zones.
      bind-Succeeds (bits_of-Succeeds bytes 16 24 (omega arith) (omega arith)) λ expanders_ac.
        bind-Succeeds (bits_of-Succeeds bytes 24 32 (omega arith) (omega arith))
          λ expanders_battery.
            bind-Succeeds (bits_of-Succeeds bytes 32 40 (omega arith) (omega arith))
              λ expanders_no_battery.
                bind-Succeeds (get_elem?-Succeeds bytes 40 (omega arith)) λ b1.
                  bind-Succeeds (get_elem?-Succeeds bytes 41 (omega arith)) λ b2.
                    bind-Succeeds (get_elem?-Succeeds bytes 42 (omega arith)) λ b3.
                      bind-Succeeds (get_elem?-Succeeds bytes 43 (omega arith)) λ p1.
                        bind-Succeeds (get_elem?-Succeeds bytes 44 (omega arith)) λ p2.
                          bind-Succeeds (get_elem?-Succeeds bytes 45 (omega arith)) λ p3.
                            bind-Succeeds (get_elem?-Succeeds bytes 46 (omega arith))
                              λ p4. some-Succeeds _

unfoldable pub process_troubles_part1 : ℕ → List ℕ → Option (Result TroublesPart1Data)
unfolding parse_part read_part1
process_troubles_part1 now =
    parse_part (λ first. (first == 0x1B) || (first == 0x20)) 47 (read_part1 now)

pub outcome-process_troubles_part1 :
    (now : ℕ) (bytes : List ℕ)
    → outcome (process_troubles_part1 now (0x1B ∷ bytes)) ≡ some (long_enough 47 bytes)
unfolding process_troubles_part1
outcome-process_troubles_part1 now bytes =
    outcome-parse_part (λ first. (first == 0x1B) || (first == 0x20)) 47 (read_part1 now) 0x1B bytes
      refl (read_part1-Succeeds now 0x1B bytes)

pub outcome-process_troubles_part1_memory :
    (now : ℕ) (bytes : List ℕ)
    → outcome (process_troubles_part1 now (0x20 ∷ bytes)) ≡ some (long_enough 47 bytes)
unfolding process_troubles_part1
outcome-process_troubles_part1_memory now bytes =
    outcome-parse_part (λ first. (first == 0x1B) || (first == 0x20)) 47 (read_part1 now) 0x20 bytes
      refl (read_part1-Succeeds now 0x20 bytes)
