-- ===== src/Catalog/Zones/Bytes.antt =====
-- src/zone_catalog.rs: the code of each reaction.
use satel_integra.Common.{ℕ, ◌+◌, ◌-◌}
use satel_integra.Catalog.Numbers.{clamp}
use satel_integra.Catalog.Zones.Types.{
  ZoneReaction, entry_exit, entry, delayed_with_signaling, interior_delayed, perimeter, instant,
  exit, audible_silent, exterior, tamper24h, vibration24h, cash_machine24h, panic_audible,
  panic_silent, medical_button, medical_remote, counting, fire24h, fire_smoke24h,
  fire_combustion24h, fire_water24h, fire_temperature24h, fire_button24h, fire_duct24h,
  fire_flame24h, fire_circuits_protection24h, water_pressure24h, co2_pressure24h, valve_sensor24h,
  water_level24h, pumps_start24h, pumps_failure24h, no_alarm_action, auxiliary_general24h,
  auxiliary_gas24h, auxiliary_freeze24h, auxiliary_heat_loss24h, auxiliary_water_leak24h,
  auxiliary_security_non_burglary24h, auxiliary_low_cylinder_gas_pressure24h,
  auxiliary_high_temp24h, auxiliary_low_temp24h, technical_door_control, technical_door_button,
  technical_ac_trouble, technical_battery_trouble, technical_gsm_trouble,
  technical_power_supply_overload, trouble, blocking_group, arming, disarming, arm_disarm,
  alarm_clearing, guard_round, entry_exit_conditional, entry_exit_final, exit_final, burglary24h,
  exit_time_terminating, verification_blocking, masking_sensor, outputs_group_off, outputs_group_on,
  entry_exit_interior, entry_interior, monitoring_fire, monitoring_fire_panel_trouble, unknown,
}

unfoldable pub code : ZoneReaction → ℕ
code entry_exit = 0
code entry = 1
code delayed_with_signaling = 2
code interior_delayed = 3
code perimeter = 4
code instant = 5
code exit = 6
code audible_silent = 7
code exterior = 8
code tamper24h = 9
code vibration24h = 10
code cash_machine24h = 11
code panic_audible = 12
code panic_silent = 13
code medical_button = 14
code medical_remote = 15
code (counting n) = 16 + (clamp 1 16 n - 1)
code fire24h = 32
code fire_smoke24h = 33
code fire_combustion24h = 34
code fire_water24h = 35
code fire_temperature24h = 36
code fire_button24h = 37
code fire_duct24h = 38
code fire_flame24h = 39
code fire_circuits_protection24h = 40
code water_pressure24h = 41
code co2_pressure24h = 42
code valve_sensor24h = 43
code water_level24h = 44
code pumps_start24h = 45
code pumps_failure24h = 46
code no_alarm_action = 47
code auxiliary_general24h = 48
code auxiliary_gas24h = 49
code auxiliary_freeze24h = 50
code auxiliary_heat_loss24h = 51
code auxiliary_water_leak24h = 52
code auxiliary_security_non_burglary24h = 53
code auxiliary_low_cylinder_gas_pressure24h = 54
code auxiliary_high_temp24h = 55
code auxiliary_low_temp24h = 56
code technical_door_control = 57
code technical_door_button = 58
code technical_ac_trouble = 59
code technical_battery_trouble = 60
code technical_gsm_trouble = 61
code technical_power_supply_overload = 62
code trouble = 63
code (blocking_group n) = 64 + (clamp 1 16 n - 1)
code arming = 80
code disarming = 81
code arm_disarm = 82
code alarm_clearing = 83
code guard_round = 84
code entry_exit_conditional = 85
code entry_exit_final = 86
code exit_final = 87
code burglary24h = 88
code exit_time_terminating = 89
code verification_blocking = 90
code masking_sensor = 91
code outputs_group_off = 92
code outputs_group_on = 93
code entry_exit_interior = 94
code entry_interior = 95
code monitoring_fire = 96
code monitoring_fire_panel_trouble = 97
code (unknown n) = n
