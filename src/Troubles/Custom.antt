-- ===== src/Troubles/Custom.antt =====
-- src/parsers/system.rs: the decoders of the parts of a frame that no mask describes. `none` is a
-- panic, of an index out of range; each decoder tests the length itself before it reads.
pub mod Reads
pub mod Latch
use satel_integra.Common.{
  ℕ, zero, suc, ◌+◌, ◌*◌, ◌%◌, ◌^◌, Bool, false, true, not, ◌&&◌, Option, some, List, [], ◌∷◌, ◌++◌,
  ◌==◌, ltb, min, if◌then◌else◌, length, get_elem?,
}
use satel_integra.Common.Panics.{◌>>=◌}
use satel_integra.Parsers.Bits.{bit_set}
use satel_integra.Troubles.Types.{
  TroubleType, TroubleItem, flag, main_board_out_overload, main_board_kpd_power_overload,
  main_board_ex_power_overload, main_board_battery_low, main_board_ac_loss, main_board_data_bus_dt1,
  main_board_data_bus_dt2, main_board_data_bus_dtm, rtc_loss, no_dtr_signal,
  main_board_battery_missing, external_modem_init_trouble, external_modem_cmd_trouble,
  telephone_line_no_voltage, telephone_line_bad_signal, telephone_line_no_signal,
  monitoring_station1_trouble, monitoring_station2_trouble, eeprom_rtc_trouble, ram_memory_error,
  ethm_monitoring_station1_error, ethm_monitoring_station2_error, gprs_monitoring_station1_error,
  gprs_monitoring_station2_error, time_server_trouble, gsm_init_error,
  ip_monitoring_station1_trouble, ip_monitoring_station2_trouble, main_panel_restart_memory,
  auxiliary_stm_troubles, acu_jam_level, gsm_ethm_station1_error, gsm_ethm_station2_error,
  gsm_gprs_sim1_station1_error, gsm_gprs_sim1_station2_error, gsm_gprs_sim2_station1_error,
  gsm_gprs_sim2_station2_error, gsm_sms_sim1_station1_error, gsm_sms_sim1_station2_error,
  gsm_sms_sim2_station1_error, gsm_sms_sim2_station2_error, gsm_sim_pin_error,
  gsm_sim_logging_error, gsm_sim_credit_low, gsm_sim_sms_error, gsm_jamming, gsm_settings_crc_error,
  gsm_module_missing, gsm_module_changed, gsm_server_conn_error, gsm_mail_server_conn_error,
  gsm_ntp_server_conn_error, generic_trouble, cme_error, gsm_module,
}

-- `for (t, active) in rules { items.push(Flag { … }) }`
unfoldable pub push_flags : Bool → List (TroubleType × Bool) → List TroubleItem
push_flags memory [] = []
push_flags memory ((t, active) ∷ rest) = flag t memory active ∷ push_flags memory rest

system_flags : ℕ → ℕ → ℕ → List (TroubleType × Bool)
system_flags b1 b2 b3 =
    (main_board_out_overload 1, bit_set b1 0)
    ∷ (main_board_out_overload 2, bit_set b1 1)
    ∷ (main_board_out_overload 3, bit_set b1 2)
    ∷ (main_board_out_overload 4, bit_set b1 3)
    ∷ (main_board_kpd_power_overload, bit_set b1 4)
    ∷ (main_board_ex_power_overload, bit_set b1 5)
    ∷ (main_board_battery_low, bit_set b1 6)
    ∷ (main_board_ac_loss, bit_set b1 7)
    ∷ (main_board_data_bus_dt1, bit_set b2 0)
    ∷ (main_board_data_bus_dt2, bit_set b2 1)
    ∷ (main_board_data_bus_dtm, bit_set b2 2)
    ∷ (rtc_loss, bit_set b2 3)
    ∷ (no_dtr_signal, bit_set b2 4)
    ∷ (main_board_battery_missing, bit_set b2 5)
    ∷ (external_modem_init_trouble, bit_set b2 6)
    ∷ (external_modem_cmd_trouble, bit_set b2 7)
    ∷ (telephone_line_no_voltage, bit_set b3 0)
    ∷ (telephone_line_bad_signal, bit_set b3 1)
    ∷ (telephone_line_no_signal, bit_set b3 2)
    ∷ (monitoring_station1_trouble, bit_set b3 3)
    ∷ (monitoring_station2_trouble, bit_set b3 4)
    ∷ (eeprom_rtc_trouble, bit_set b3 5)
    ∷ (ram_memory_error, bit_set b3 6)
    ∷ (main_panel_restart_memory, bit_set b3 7)
    ∷ []

unfoldable pub decode_system_troubles : List ℕ → Bool → Option (List TroubleItem)
unfolding push_flags system_flags
decode_system_troubles bytes memory = if ltb (length bytes) 43 then some [] else do
  b1 ← get_elem? bytes 40
  b2 ← get_elem? bytes 41
  b3 ← get_elem? bytes 42
  some (push_flags memory (system_flags b1 b2 b3))

ethm_ptsa_flags : ℕ → List (TroubleType × Bool)
ethm_ptsa_flags p4 =
    (ethm_monitoring_station1_error, bit_set p4 0)
    ∷ (ethm_monitoring_station2_error, bit_set p4 1)
    ∷ (gprs_monitoring_station1_error, bit_set p4 2)
    ∷ (gprs_monitoring_station2_error, bit_set p4 3)
    ∷ (time_server_trouble, bit_set p4 4)
    ∷ (gsm_init_error, bit_set p4 5)
    ∷ (ip_monitoring_station1_trouble, bit_set p4 6)
    ∷ (ip_monitoring_station2_trouble, bit_set p4 7)
    ∷ []

unfoldable pub decode_ethm_ptsa_status : List ℕ → Bool → Option (List TroubleItem)
unfolding push_flags ethm_ptsa_flags
decode_ethm_ptsa_status bytes memory =
    if ltb (length bytes) 47
    then some []
    else do p4 ← get_elem? bytes 46; some (push_flags memory (ethm_ptsa_flags p4))

unfoldable pub decode_aux_stm : List ℕ → Bool → Option (List TroubleItem)
decode_aux_stm bytes memory =
    if ltb 29 (length bytes)
    then (do
      byte ← get_elem? bytes 29
      some (flag auxiliary_stm_troubles memory (not (byte == 0)) ∷ []))
    else some []

-- `for i in 0..count { push(AcuJamLevel { module: i + first, level: data[at + i] }) }`
jam_levels : List ℕ → ℕ → ℕ → ℕ → Option (List TroubleItem)
jam_levels bytes first at zero = some []
jam_levels bytes first at (suc count) =
    let rest = jam_levels bytes (first + 1) (at + 1) count in
    do level ← get_elem? bytes at; items ← rest; some (acu_jam_level (first % 2 ^ 8) level ∷ items)

unfoldable pub decode_acu_jam_level : List ℕ → Bool → Option (List TroubleItem)
unfolding jam_levels
decode_acu_jam_level bytes memory = jam_levels bytes 1 0 (min 15 (length bytes))

unfoldable pub decode_acu_jam_level_16_30 : List ℕ → Bool → Option (List TroubleItem)
unfolding jam_levels
decode_acu_jam_level_16_30 bytes memory =
    let items = jam_levels bytes 16 32 15 in if ltb (length bytes) 47 then some [] else items

-- The flags of a module, in the order of their bits, without the reserved bits.
gsm_flags : ℕ → ℕ → ℕ → ℕ → ℕ → List (TroubleType × Bool)
gsm_flags m b0 b1 b2 b3 =
    (gsm_ethm_station1_error m, bit_set b0 0)
    ∷ (gsm_ethm_station2_error m, bit_set b0 1)
    ∷ (gsm_gprs_sim1_station1_error m, bit_set b0 2)
    ∷ (gsm_gprs_sim1_station2_error m, bit_set b0 3)
    ∷ (gsm_gprs_sim2_station1_error m, bit_set b0 4)
    ∷ (gsm_gprs_sim2_station2_error m, bit_set b0 5)
    ∷ (gsm_sms_sim1_station1_error m, bit_set b0 6)
    ∷ (gsm_sms_sim1_station2_error m, bit_set b0 7)
    ∷ (gsm_sms_sim2_station1_error m, bit_set b1 0)
    ∷ (gsm_sms_sim2_station2_error m, bit_set b1 1)
    ∷ (gsm_sim_pin_error m 1, bit_set b1 2)
    ∷ (gsm_sim_pin_error m 2, bit_set b1 3)
    ∷ (gsm_sim_logging_error m 1, bit_set b1 4)
    ∷ (gsm_sim_logging_error m 2, bit_set b1 5)
    ∷ (gsm_sim_credit_low m 1, bit_set b1 6)
    ∷ (gsm_sim_credit_low m 2, bit_set b1 7)
    ∷ (gsm_sim_sms_error m 1, bit_set b2 0)
    ∷ (gsm_sim_sms_error m 2, bit_set b2 1)
    ∷ (gsm_jamming m, bit_set b2 2)
    ∷ (gsm_settings_crc_error m, bit_set b2 3)
    ∷ (gsm_module_missing m, bit_set b2 4)
    ∷ (gsm_module_changed m, bit_set b2 5)
    ∷ (gsm_server_conn_error m, bit_set b2 6)
    ∷ (gsm_mail_server_conn_error m, bit_set b2 7)
    ∷ (gsm_ntp_server_conn_error m, bit_set b3 0)
    ∷ []

-- `for i in 1..8`: the reserved bits, as troubles without a name.
generic_flags : ℕ → ℕ → List (TroubleType × Bool)
generic_flags off b3 =
    let reserved : ℕ → TroubleType × Bool =
      λ i. (generic_trouble 7 ((off * 8 + 3 * 8 + i) % 2 ^ 16), bit_set b3 i) in
    reserved 1 ∷ reserved 2 ∷ reserved 3 ∷ reserved 4 ∷ reserved 5 ∷ reserved 6 ∷ reserved 7 ∷ []

unfoldable pub is_generic : TroubleType → Bool
is_generic (generic_trouble part bit) = true
is_generic _ = false

-- `GenericTrouble` only if active.
push_gsm_flags : Bool → List (TroubleType × Bool) → List TroubleItem
unfolding is_generic
push_gsm_flags memory [] = []
push_gsm_flags memory ((t, active) ∷ rest) =
    let more = push_gsm_flags memory rest in
    if is_generic t && not active then more else flag t memory active ∷ more

abbrev pub from_be_bytes : ℕ → ℕ → ℕ
from_be_bytes high low = high * 2 ^ 8 + low

-- The body of the loop over the modules.
gsm_module_items : ℕ → List ℕ → Bool → Option (List TroubleItem)
unfolding push_gsm_flags gsm_flags generic_flags
gsm_module_items m bytes memory =
    let off = m * 8 in
    do
      b0 ← get_elem? bytes off
      b1 ← get_elem? bytes (off + 1)
      b2 ← get_elem? bytes (off + 2)
      b3 ← get_elem? bytes (off + 3)
      c4 ← get_elem? bytes (off + 4)
      c5 ← get_elem? bytes (off + 5)
      c6 ← get_elem? bytes (off + 6)
      c7 ← get_elem? bytes (off + 7)
      some (
          push_gsm_flags memory (gsm_flags m b0 b1 b2 b3 ++ generic_flags off b3)
          ++ cme_error (gsm_module m) 1 memory (from_be_bytes c4 c5)
            ∷ cme_error (gsm_module m) 2 memory (from_be_bytes c6 c7)
            ∷ [])

-- `count` rounds from module `m` on; the loop ends early where the bytes end.
gsm_modules : List ℕ → Bool → ℕ → ℕ → Option (List TroubleItem)
unfolding gsm_module_items
gsm_modules bytes memory m zero = some []
gsm_modules bytes memory m (suc count) =
    let rest = gsm_modules bytes memory (m + 1) count in
    if ltb (length bytes) (m * 8 + 8)
    then some []
    else do items ← gsm_module_items m bytes memory; more ← rest; some (items ++ more)

unfoldable pub decode_gsm_block : List ℕ → Bool → Option (List TroubleItem)
unfolding gsm_modules
decode_gsm_block bytes memory = gsm_modules bytes memory 0 8
