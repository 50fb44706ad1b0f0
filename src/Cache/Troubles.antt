-- ===== src/Cache/Troubles.antt =====
-- src/client_internal.rs, `update_troubles_internal`: the troubles of a frame enter three maps of the
-- cache, and each may send an event.
pub mod Replay
pub mod News
pub mod Latched
mod Runs
use satel_integra.Common.{
  ℕ, Bool, true, false, not, ◌||◌, Option, none, some, List, [], ◌∷◌, ◌++◌, ◌==◌, if◌then◌else◌,
}
use satel_integra.Common.Maps.{Key, find, insert}
use satel_integra.Common.Panics.{◌>>=◌}
use satel_integra.Error.{Result, ok, err}
use satel_integra.Command.{SatelCommand, to_byte}
use satel_integra.Config.{Config}
use satel_integra.State.{SatelState}
use satel_integra.Event.{SatelEvent}
use satel_integra.Troubles.Types.{
  TroubleType, TroubleType-discrete, CmeSource, CmeSource-discrete, TroubleItem, flag,
  acu_jam_level, cme_error,
}
use satel_integra.Troubles.Decode.{decode_troubles}
use satel_integra.Cache.Items.{differ}
use mathlib.Core.HLevel.{Discrete}
use mathlib.Core.Option.{get_or}
use native.Mathlib.Decide.{ℕ_discrete}

pub flag_key_discrete : Discrete (TroubleType × Bool)
flag_key_discrete = hlevel TroubleType-discrete

pub cme_key_discrete : Discrete (CmeSource × ℕ × Bool)
cme_key_discrete = hlevel (CmeSource-discrete, ℕ_discrete)

instance abbrev pub flag_key : Key (TroubleType × Bool)
flag_key = record { eq = flag_key_discrete }

instance abbrev pub level_key : Key ℕ
level_key = record { eq = ℕ_discrete }

instance abbrev pub cme_key : Key (CmeSource × ℕ × Bool)
cme_key = record { eq = cme_key_discrete }

flag_event : Bool → TroubleType → Bool → SatelEvent
flag_event true t active = SatelEvent.trouble_memory t active
flag_event false t active = SatelEvent.trouble t active

-- The body of the loop over the items.
unfoldable pub update_trouble_item : Bool → TroubleItem → SatelState → SatelState × List SatelEvent
unfolding flag_event
update_trouble_item emit_unchanged (flag t memory active) state =
    let prev = get_or (find (t, memory) state.trouble_flags) false in
    let changed = differ prev active in
    (
      record state { trouble_flags = insert (t, memory) active state.trouble_flags },
      if changed || emit_unchanged then flag_event memory t active ∷ [] else [],
    )
update_trouble_item emit_unchanged (acu_jam_level jammed_module level) state =
    let prev = get_or (find jammed_module state.acu_jam_levels) 0 in
    let changed = not (prev == level) in
    (
      record state { acu_jam_levels = insert jammed_module level state.acu_jam_levels },
      if changed || emit_unchanged then SatelEvent.acu_jam_level jammed_module level ∷ [] else [],
    )
update_trouble_item emit_unchanged (cme_error source sim memory code) state =
    let prev = get_or (find (source, sim, memory) state.cme_errors) 0 in
    let changed = not (prev == code) in
    (
      record state { cme_errors = insert (source, sim, memory) code state.cme_errors },
      if changed || emit_unchanged then SatelEvent.cme_error source sim code memory ∷ [] else [],
    )

unfoldable pub update_trouble_items :
    Bool → List TroubleItem → SatelState → SatelState × List SatelEvent
unfolding update_trouble_item
update_trouble_items emit_unchanged [] state = (state, [])
update_trouble_items emit_unchanged (item ∷ items) state =
    let (state', sent) = update_trouble_item emit_unchanged item state in
    let (state'', more) = update_trouble_items emit_unchanged items state' in
    (state'', sent ++ more)

-- `none` is a panic of the decoder.
unfoldable pub update_troubles_internal :
    Config → SatelCommand → List ℕ → SatelState → Option (Result (SatelState × List SatelEvent))
unfolding update_trouble_items
update_troubles_internal config cmd bytes state = do
  decoded ← decode_troubles (to_byte cmd) bytes
  some (elim decoded [
    | err e ↦ err e
    | ok items ↦ ok (update_trouble_items config.emit_unchanged_troubles items state)
  ])
