-- ===== src/Catalog/Outputs/Control.antt =====
-- src/output_catalog.rs: which outputs can be controlled, and how.
use satel_integra.Common.{ℕ, ◌*◌, Bool, ◌&&◌, ◌||◌, Option, none, some, ◌==◌, leb, if◌then◌else◌}
use satel_integra.Catalog.Outputs.Types.{OutputFunction}
use satel_integra.Catalog.Outputs.Bytes.{code}
use satel_integra.Catalog.Outputs.Modes.{OutputControl, no_control, bistable, unknown, timed}
use mathlib.Core.Option

unfoldable pub is_controllable : OutputFunction → Bool
is_controllable function =
    let c = code function in
    (c == 24) || (c == 25) || (leb 64 c && leb c 79) || (c == 98) || (c == 105) || (c == 106)

-- The arm of the telephone relays.
unfoldable pub relay_control : Option ℕ → OutputControl
relay_control none = unknown
relay_control (some d) = if d == 0 then bistable else timed (some d)

unfoldable pub control_from_duration : OutputFunction → Option ℕ → OutputControl
unfolding relay_control
control_from_duration function duration =
    let c = code function in
    if (c == 24) || (c == 105) || (c == 106)
    then timed duration
    else if c == 25
    then bistable
    else if (leb 64 c && leb c 79) || (c == 98)
    then relay_control duration
    else no_control

unfoldable pub control : OutputFunction → Option ℕ → OutputControl
unfolding control_from_duration
control function duration_tenths_sec =
    control_from_duration function (Option.map (λ ds. ds * 100) duration_tenths_sec)
