-- ===== src/Config/Runs.antt =====
-- The validation theorem at a concrete configuration.
use satel_integra.Common.{ℕ, ◌≡◌, ◌↔◌, true, false, List, [], ◌∷◌, All}
use satel_integra.Error.{ok}
use satel_integra.Config.{Config, TemperatureProbe, default_config, validate}
use satel_integra.Config.Validation.{IsValidProbe, Distinct, IsEncryptable, validate_iff}

abbrev probe : ℕ → TemperatureProbe
probe zone = record {
  zone_id = zone;
  interval_minutes = 5;
  max_timeout_errors = 4;
  max_sensor_errors = 10;
  unblock_enabled = true;
  unblock_after_cycles = 10;
}

abbrev two_probes : Config
two_probes = record default_config { temperature_probes = probe 1 ∷ probe 256 ∷ [] }

validate_iff_example : (validate two_probes ≡ ok tt) ↔ (
    (false ≡ true → (key : List ℕ) × IsEncryptable two_probes key)
    × All IsValidProbe (probe 1 ∷ probe 256 ∷ [])
    × Distinct (probe 1 ∷ probe 256 ∷ []))
validate_iff_example = validate_iff two_probes
