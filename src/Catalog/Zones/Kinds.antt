-- ===== src/Catalog/Zones/Kinds.antt =====
-- src/zone_catalog.rs: the texts of `ZoneKind`.
use satel_integra.Catalog.Zones.Types.{
  ZoneKind, burglary, fire, smoke, water, gas, freeze, temperature, panic, medical, tamper,
  technical, control, other,
}
use Prim.Native.String.{String}

unfoldable pub key : ZoneKind → String
key burglary = "burglary"
key fire = "fire"
key smoke = "smoke"
key water = "water"
key gas = "gas"
key freeze = "freeze"
key temperature = "temperature"
key panic = "panic"
key medical = "medical"
key tamper = "tamper"
key technical = "technical"
key control = "control"
key other = "other"

unfoldable pub label_en : ZoneKind → String
label_en burglary = "Burglary"
label_en fire = "Fire"
label_en smoke = "Smoke"
label_en water = "Water"
label_en gas = "Gas"
label_en freeze = "Freeze"
label_en temperature = "Temperature"
label_en panic = "Panic"
label_en medical = "Medical"
label_en tamper = "Tamper"
label_en technical = "Technical"
label_en control = "Control"
label_en other = "Other"
