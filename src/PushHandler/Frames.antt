-- ===== src/PushHandler/Frames.antt =====
-- src/auto_requester.rs, `handle_auto_frame` whole: the arms for the clock and for the troubles, and
-- those of `handle_mask_frame`. No two arms match the same frame, so their order does not matter.
use satel_integra.Common.{
  ℕ, Bool, ◌&&◌, ◌||◌, Option, none, some, List, [], ◌∷◌, ◌==◌, leb, if◌then◌else◌, ◌++◌,
}
use satel_integra.Common.Panics.{◌>>=◌}
use satel_integra.Error.{Result, ok, err}
use satel_integra.Command.{SatelCommand, from_byte}
use satel_integra.Config.{Config}
use satel_integra.State.{SatelState, SystemStatus}
use satel_integra.Event.{SatelEvent}
use satel_integra.Parsers.Clock.{DateTime, process_rtc_and_status}
use satel_integra.Cache.Status.{update_system_status_internal}
use satel_integra.Cache.Troubles.{update_troubles_internal}
use satel_integra.PushHandler.{handle_mask_frame}

-- `0x1B..=0x1F | 0x2C | 0x2D | 0x30 | 0x20..=0x24 | 0x2E | 0x2F | 0x31`
unfoldable pub is_trouble_frame : ℕ → Bool
is_trouble_frame first =
    (leb 0x1B first && leb first 0x1F)
    || (first == 0x2C)
    || (first == 0x2D)
    || (first == 0x30)
    || (leb 0x20 first && leb first 0x24)
    || (first == 0x2E)
    || (first == 0x2F)
    || (first == 0x31)

-- `if let Ok(s) = parse { let _ = update(s); }`
unfoldable pub status_arm : Config → SatelState → Result SystemStatus → SatelState × List SatelEvent
status_arm config state (err e) = (state, [])
status_arm config state (ok status) = update_system_status_internal config status state

-- `let _ = update_troubles_internal(…);`
unfoldable pub troubles_answer :
    SatelState → Result (SatelState × List SatelEvent) → SatelState × List SatelEvent
troubles_answer state (err e) = (state, [])
troubles_answer state (ok after) = after

unfoldable pub troubles_arm :
    Config → List ℕ → SatelState → Option SatelCommand → Option (SatelState × List SatelEvent)
unfolding troubles_answer
troubles_arm config bytes state none = some (state, [])
troubles_arm config bytes state (some cmd) = do
  answer ← update_troubles_internal config cmd bytes state
  some (troubles_answer state answer)

-- `none` is a panic.
unfoldable pub handle_auto_frame :
    (DateTime → Option ℕ) → Config → List ℕ → ℕ → SatelState → Option (SatelState × List SatelEvent)
unfolding status_arm troubles_arm is_trouble_frame
handle_auto_frame single config [] now state = some (state, [])
handle_auto_frame single config (first ∷ rest) now state =
    if first == 0x1A
    then some (status_arm config state (process_rtc_and_status single now (first ∷ rest)))
    else if is_trouble_frame first
    then troubles_arm config rest state (from_byte first)
    else some (handle_mask_frame config (first ∷ rest) now state)

-- The frames of a run, each with the time of its reading, and the events sent.
unfoldable pub handle_frames :
    (DateTime → Option ℕ)
    → Config
    → List (ℕ × List ℕ)
    → SatelState
    → Option (SatelState × List SatelEvent)
handle_frames single config [] state = some (state, [])
handle_frames single config ((now, frame) ∷ frames) state = do
  after ← handle_auto_frame single config frame now state
  rest ← handle_frames single config frames after.0
  some (rest.0, after.1 ++ rest.1)
