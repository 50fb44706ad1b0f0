-- ===== src/Catalog/RoundTrip.antt =====
-- The codes of the catalogs in src/zone_catalog.rs, src/output_catalog.rs and src/partition_catalog.rs
-- against their names, for every byte.
use satel_integra.Common.{ℕ, ◌<◌, ◌≡◌, refl, Bool, ◌==◌, every, every-at, ==_iff}
use satel_integra.Catalog.Zones
use satel_integra.Catalog.Outputs
use satel_integra.Catalog.Partitions

abbrev reaction_kept : ℕ → Bool
reaction_kept c = Zones.Bytes.code (Zones.Codes.from_code c) == c

pub reaction_code : (c : ℕ) → c < 256 → Zones.Bytes.code (Zones.Codes.from_code c) ≡ c
reaction_code c h =
    (==_iff (Zones.Bytes.code (Zones.Codes.from_code c)) c).0
      (every-at reaction_kept 256 c (unfold every Zones.Bytes.code Zones.Codes.from_code in refl) h)

abbrev function_kept : ℕ → Bool
function_kept c = Outputs.Bytes.code (Outputs.Codes.from_code c) == c

pub function_code : (c : ℕ) → c < 256 → Outputs.Bytes.code (Outputs.Codes.from_code c) ≡ c
function_code c h = (==_iff (Outputs.Bytes.code (Outputs.Codes.from_code c)) c).0 (
    every-at function_kept 256 c (unfold every Outputs.Bytes.code Outputs.Codes.from_code in refl)
      h)

abbrev type_kept : ℕ → Bool
type_kept c = Partitions.Types.code (Partitions.Types.from_code c) == c

pub type_code : (c : ℕ) → c < 256 → Partitions.Types.code (Partitions.Types.from_code c) ≡ c
type_code c h = (==_iff (Partitions.Types.code (Partitions.Types.from_code c)) c).0 (
    every-at type_kept 256 c (unfold every Partitions.Types.code Partitions.Types.from_code in refl)
      h)
