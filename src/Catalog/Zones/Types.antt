-- ===== src/Catalog/Zones/Types.antt =====
-- src/zone_catalog.rs: `ZoneReaction` and `ZoneKind`.
use satel_integra.Common.{ℕ}

pub data ZoneReaction : Type 0 where
  entry_exit entry delayed_with_signaling interior_delayed perimeter instant exit : ZoneReaction
  audible_silent exterior tamper24h vibration24h cash_machine24h panic_audible : ZoneReaction
  panic_silent medical_button medical_remote fire24h fire_smoke24h : ZoneReaction
  fire_combustion24h fire_water24h fire_temperature24h fire_button24h : ZoneReaction
  fire_duct24h fire_flame24h fire_circuits_protection24h water_pressure24h : ZoneReaction
  co2_pressure24h valve_sensor24h water_level24h pumps_start24h pumps_failure24h : ZoneReaction
  no_alarm_action auxiliary_general24h auxiliary_gas24h auxiliary_freeze24h : ZoneReaction
  auxiliary_heat_loss24h auxiliary_water_leak24h : ZoneReaction
  auxiliary_security_non_burglary24h auxiliary_low_cylinder_gas_pressure24h : ZoneReaction
  auxiliary_high_temp24h auxiliary_low_temp24h technical_door_control : ZoneReaction
  technical_door_button technical_ac_trouble technical_battery_trouble : ZoneReaction
  technical_gsm_trouble technical_power_supply_overload trouble arming disarming : ZoneReaction
  arm_disarm alarm_clearing guard_round entry_exit_conditional entry_exit_final : ZoneReaction
  exit_final burglary24h exit_time_terminating verification_blocking : ZoneReaction
  masking_sensor outputs_group_off outputs_group_on entry_exit_interior : ZoneReaction
  entry_interior monitoring_fire monitoring_fire_panel_trouble : ZoneReaction
  counting blocking_group unknown : ℕ → ZoneReaction

pub data ZoneKind : Type 0 where
  burglary fire smoke water gas freeze temperature panic medical tamper technical : ZoneKind
  control other : ZoneKind
