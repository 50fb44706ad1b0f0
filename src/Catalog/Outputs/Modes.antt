-- ===== src/Catalog/Outputs/Modes.antt =====
-- src/output_catalog.rs: `OutputControl`, how an output can be controlled. A `Duration` is its
-- milliseconds.
use satel_integra.Common.{ℕ, Bool, true, false, Option}

-- `OutputControl::None` is `no_control`.
pub data OutputControl : Type 0 where
  no_control bistable unknown : OutputControl
  timed : Option ℕ → OutputControl

unfoldable pub is_controllable : OutputControl → Bool
is_controllable no_control = false
is_controllable (timed duration) = true
is_controllable bistable = true
is_controllable unknown = true

unfoldable pub is_timed : OutputControl → Bool
is_timed (timed duration) = true
is_timed no_control = false
is_timed bistable = false
is_timed unknown = false

unfoldable pub is_bistable : OutputControl → Bool
is_bistable bistable = true
is_bistable no_control = false
is_bistable (timed duration) = false
is_bistable unknown = false
