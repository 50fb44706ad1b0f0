-- ===== src/Catalog/Zones/Codes.antt =====
-- src/zone_catalog.rs: the reaction that each code of the panel stands for.
use satel_integra.Common.{ℕ, ◌+◌, ◌-◌, ◌==◌, leb, ◌&&◌, if◌then◌else◌}
use satel_integra.Catalog.Zones.Types.{
  ZoneReaction, entry_exit, entry, delayed_with_signaling, interior_delayed, perimeter, instant,
  exit, audible_silent, exterior, tamper24h, vibration24h, cash_machine24h, panic_audible,
  panic_silent, medical_button, medical_remote, counting, fire24h, fire_smoke24h,
  fire_combustion24h, fire_water24h, fire_temperature24h, fire_button24h, fire_duct24h,
  fire_flame24h, fire_circuits_protection24h, water_pressure24h, co2_pressure24h, valve_sensor24h,
  water_level24h, pumps_start24h, pumps_failure24h, no_alarm_action, auxiliary_general24h,
  auxiliary_gas24h, auxiliary_freeze24h, auxiliary_heat_loss24h, auxiliary_water_leak24h,
  auxiliary_security_non_burglary24h, auxiliary_low_cylinder_gas_pressure24h,
  auxiliary_high_temp24h, auxiliary_low_temp24h, technical_door_control, technical_door_button,
  technical_ac_trouble, technical_battery_trouble, technical_gsm_trouble,
  technical_power_supply_overload, trouble, blocking_group, arming, disarming, arm_disarm,
  alarm_clearing, guard_round, entry_exit_conditional, entry_exit_final, exit_final, burglary24h,
  exit_time_terminating, verification_blocking, masking_sensor, outputs_group_off, outputs_group_on,
  entry_exit_interior, entry_interior, monitoring_fire, monitoring_fire_panel_trouble, unknown,
}

unfoldable pub from_code : ℕ → ZoneReaction
from_code code =
    if code == 0
    then entry_exit
    else if code == 1
    then entry
    else if code == 2
    then delayed_with_signaling
    else if code == 3
    then interior_delayed
    else if code == 4
    then perimeter
    else if code == 5
    then instant
    else if code == 6
    then exit
    else if code == 7
    then audible_silent
    else if code == 8
    then exterior
    else if code == 9
    then tamper24h
    else if code == 10
    then vibration24h
    else if code == 11
    then cash_machine24h
    else if code == 12
    then panic_audible
    else if code == 13
    then panic_silent
    else if code == 14
    then medical_button
    else if code == 15
    then medical_remote
    else if leb 16 code && leb code 31
    then counting (code - 16 + 1)
    else if code == 32
    then fire24h
    else if code == 33
    then fire_smoke24h
    else if code == 34
    then fire_combustion24h
    else if code == 35
    then fire_water24h
    else if code == 36
    then fire_temperature24h
    else if code == 37
    then fire_button24h
    else if code == 38
    then fire_duct24h
    else if code == 39
    then fire_flame24h
    else if code == 40
    then fire_circuits_protection24h
    else if code == 41
    then water_pressure24h
    else if code == 42
    then co2_pressure24h
    else if code == 43
    then valve_sensor24h
    else if code == 44
    then water_level24h
    else if code == 45
    then pumps_start24h
    else if code == 46
    then pumps_failure24h
    else if code == 47
    then no_alarm_action
    else if code == 48
    then auxiliary_general24h
    else if code == 49
    then auxiliary_gas24h
    else if code == 50
    then auxiliary_freeze24h
    else if code == 51
    then auxiliary_heat_loss24h
    else if code == 52
    then auxiliary_water_leak24h
    else if code == 53
    then auxiliary_security_non_burglary24h
    else if code == 54
    then auxiliary_low_cylinder_gas_pressure24h
    else if code == 55
    then auxiliary_high_temp24h
    else if code == 56
    then auxiliary_low_temp24h
    else if code == 57
    then technical_door_control
    else if code == 58
    then technical_door_button
    else if code == 59
    then technical_ac_trouble
    else if code == 60
    then technical_battery_trouble
    else if code == 61
    then technical_gsm_trouble
    else if code == 62
    then technical_power_supply_overload
    else if code == 63
    then trouble
    else if leb 64 code && leb code 79
    then blocking_group (code - 64 + 1)
    else if code == 80
    then arming
    else if code == 81
    then disarming
    else if code == 82
    then arm_disarm
    else if code == 83
    then alarm_clearing
    else if code == 84
    then guard_round
    else if code == 85
    then entry_exit_conditional
    else if code == 86
    then entry_exit_final
    else if code == 87
    then exit_final
    else if code == 88
    then burglary24h
    else if code == 89
    then exit_time_terminating
    else if code == 90
    then verification_blocking
    else if code == 91
    then masking_sensor
    else if code == 92
    then outputs_group_off
    else if code == 93
    then outputs_group_on
    else if code == 94
    then entry_exit_interior
    else if code == 95
    then entry_interior
    else if code == 96
    then monitoring_fire
    else if code == 97
    then monitoring_fire_panel_trouble
    else unknown code
