-- ===== src/Catalog/Numbers.antt =====
-- `u8::clamp`, which the catalogs of src/ use.
use satel_integra.Common.{ℕ, min, max}

-- `n.clamp(low, high)`
abbrev pub clamp : ℕ → ℕ → ℕ → ℕ
clamp low high n = min (max n low) high
