-- ===== src/Catalog/Outputs/Agreement.antt =====
-- src/output_catalog.rs: `is_controllable` against `control`.
use satel_integra.Common.{
  ℕ, ◌*◌, ◌≡◌, refl, Bool, true, false, ◌&&◌, ◌||◌, Option, none, some, ◌==◌, leb, if◌then◌else◌,
}
use satel_integra.Catalog.Outputs.Types.{OutputFunction}
use satel_integra.Catalog.Outputs.Bytes.{code}
use satel_integra.Catalog.Outputs.Modes.{OutputControl, no_control, bistable, timed}
use satel_integra.Catalog.Outputs
use satel_integra.Catalog.Outputs.Control.{
  is_controllable, relay_control, control_from_duration, control,
}
use mathlib.Core.Option

if_timed :
    (b : Bool) (d : ℕ)
    → Outputs.Modes.is_controllable (if b then bistable else timed (some d)) ≡ true
unfolding Outputs.Modes.is_controllable
if_timed true d = refl
if_timed false d = refl

relay : (d : Option ℕ) → Outputs.Modes.is_controllable (relay_control d) ≡ true
unfolding relay_control
relay none = unfold Outputs.Modes.is_controllable in refl
relay (some d) = if_timed (d == 0) d

-- The branches, with their tests as variables.
branches :
    (c24 c25 relays c98 c105 c106 : Bool) (duration : Option ℕ)
    → Outputs.Modes.is_controllable (
        if c24 || c105 || c106
        then timed duration
        else if c25
        then bistable
        else if relays || c98
        then relay_control duration
        else no_control)
      ≡ (c24 || c25 || relays || c98 || c105 || c106)
unfolding Outputs.Modes.is_controllable
branches true c25 relays c98 c105 c106 duration = refl
branches false true relays c98 true c106 duration = refl
branches false true relays c98 false true duration = refl
branches false true relays c98 false false duration = refl
branches false false true c98 true c106 duration = refl
branches false false false true true c106 duration = refl
branches false false false false true c106 duration = refl
branches false false true c98 false true duration = refl
branches false false false true false true duration = refl
branches false false false false false true duration = refl
branches false false true c98 false false duration = relay duration
branches false false false true false false duration = relay duration
branches false false false false false false duration = refl

pub control-is_controllable :
    (function : OutputFunction) (duration_tenths_sec : Option ℕ)
    → Outputs.Modes.is_controllable (control function duration_tenths_sec)
      ≡ is_controllable function
unfolding control control_from_duration is_controllable
control-is_controllable function duration_tenths_sec =
    let c = code function in
    branches (c == 24) (c == 25) (leb 64 c && leb c 79) (c == 98) (c == 105) (c == 106)
      (Option.map (λ ds. ds * 100) duration_tenths_sec)
