-- ===== src/Cache/Troubles/News.antt =====
-- `update_troubles_internal` answers every frame, and its events are enough for a subscriber and,
-- unless asked for, no more than that.
use satel_integra.Common.{
  ℕ, Bool, true, false, not, ◌||◌, ◌≡◌, ◌≢◌, refl, some, List, [], ◌∷◌, ◌++◌, ◌==◌, if◌then◌else◌,
  arith,
}
use satel_integra.Error.{Result, ok, err}
use satel_integra.Command.{SatelCommand, to_byte}
use satel_integra.Config.{Config}
use satel_integra.State.{SatelState}
use satel_integra.Event.{SatelEvent}
use satel_integra.Troubles.Types.{TroubleType, TroubleItem, flag, acu_jam_level, cme_error}
use satel_integra.Troubles.Outcomes.{decode_troubles-Succeeds}
use satel_integra.Cache.Items.{differ}
use satel_integra.Cache.Troubles.{
  flag_event, update_trouble_item, update_trouble_items, update_troubles_internal,
}
use satel_integra.Cache.Troubles.Replay.{
  View, view, tell, replay, replay-update_trouble_item, replay-update_trouble_items,
}

-- What the update leaves in the cache and sends, on what the decoder returned.
abbrev pub told_by :
    Config → SatelState → Result (List TroubleItem) → Result (SatelState × List SatelEvent)
told_by config state (err e) = err e
told_by config state (ok items) =
    ok (update_trouble_items config.emit_unchanged_troubles items state)

told_by-replay :
    (config : Config) (state : SatelState) (decoded : Result (List TroubleItem))
    (state' : SatelState) (sent : List SatelEvent)
    → told_by config state decoded ≡ ok (state', sent)
    → view state' ≡ replay sent (view state)
told_by-replay config state (err e) state' sent h = absurd cc
told_by-replay config state (ok items) state' sent h =
    let e : update_trouble_items config.emit_unchanged_troubles items state ≡ (state', sent) = cc in
    rw e at (replay-update_trouble_items config.emit_unchanged_troubles items state)

pub update_troubles_internal-told_by :
    (config : Config) (cmd : SatelCommand) (bytes : List ℕ) (state : SatelState)
    → update_troubles_internal config cmd bytes state
      ≡ some (told_by config state (decode_troubles-Succeeds (to_byte cmd) bytes).value)
unfolding update_troubles_internal
update_troubles_internal-told_by config cmd bytes state =
    rw (decode_troubles-Succeeds (to_byte cmd) bytes).returns refl

-- `update_troubles_internal` answers every command and frame; and where it succeeds, a subscriber who
-- knew what the cache knew of the troubles, and hears the events sent, knows what the cache knows
-- afterwards.
pub update_troubles_internal-told :
    (config : Config) (cmd : SatelCommand) (bytes : List ℕ) (state : SatelState)
    → (answer : Result (SatelState × List SatelEvent)) × (update_troubles_internal config cmd bytes
          state
        ≡ some answer)
      × ((state' : SatelState) (sent : List SatelEvent)
          → answer ≡ ok (state', sent)
          → view state' ≡ replay sent (view state))
update_troubles_internal-told config cmd bytes state =
    let read = decode_troubles-Succeeds (to_byte cmd) bytes in
    (
      told_by config state read.value,
      update_troubles_internal-told_by config cmd bytes state,
      told_by-replay config state read.value,
    )

-- An event tells what a subscriber with this view does not know.
abbrev IsNews : SatelEvent → View → Type 0
IsNews (SatelEvent.trouble t active) v = v.flags (t, false) ≢ active
IsNews (SatelEvent.trouble_memory t active) v = v.flags (t, true) ≢ active
IsNews (SatelEvent.acu_jam_level jammed_module level) v = v.levels jammed_module ≢ level
IsNews (SatelEvent.cme_error source sim code memory) v = v.codes (source, sim, memory) ≢ code
IsNews _ v = Unit {0}

abbrev pub AllNews : List SatelEvent → View → Type 0
AllNews [] v = Unit {0}
AllNews (e ∷ es) v = IsNews e v × AllNews es (tell e v)

AllNews-append :
    (es fs : List SatelEvent) (v : View)
    → AllNews es v
    → AllNews fs (replay es v)
    → AllNews (es ++ fs) v
unfolding replay
AllNews-append [] fs v h k = k
AllNews-append (e ∷ es) fs v h k = (h.0, AllNews-append es fs (tell e v) h.1 k)

news :
    (b : Bool) (e : SatelEvent) (v : View)
    → (b ≡ true → IsNews e v)
    → AllNews (if b then e ∷ [] else []) v
news true e v h = (h refl, tt)
news false e v h = tt

IsNews-flag_event :
    (memory active : Bool) (t : TroubleType) (v : View)
    → v.flags (t, memory) ≢ active
    → IsNews (flag_event memory t active) v
unfolding flag_event
IsNews-flag_event true active t v h = h
IsNews-flag_event false active t v h = h

changes : (changed : Bool) → changed || false ≡ true → changed ≡ true
changes true h = refl
changes false h = h

differ_ne : (a b : Bool) → differ a b ≡ true → a ≢ b
differ_ne true true h e = absurd cc
differ_ne true false h e = absurd cc
differ_ne false true h e = absurd cc
differ_ne false false h e = absurd cc

not-==_ne : (a b : ℕ) → not (a == b) ≡ true → a ≢ b
not-==_ne a b h e = ground arith

AllNews-update_trouble_item :
    (item : TroubleItem) (state : SatelState)
    → AllNews (update_trouble_item false item state).1 (view state)
unfolding update_trouble_item view
AllNews-update_trouble_item (flag t memory active) state =
    news _ _ _ λ h. IsNews-flag_event memory active t (view state) (differ_ne _ _ (changes _ h))
AllNews-update_trouble_item (acu_jam_level jammed_module level) state =
    news _ _ _ λ h. not-==_ne _ _ (changes _ h)
AllNews-update_trouble_item (cme_error source sim memory code) state =
    news _ _ _ λ h. not-==_ne _ _ (changes _ h)

-- Where events for unchanged troubles are not asked for, each event that a list of troubles sends tells
-- something else than a subscriber knows who has heard the events before it.
pub update_trouble_items-AllNews :
    (items : List TroubleItem) (state : SatelState)
    → AllNews (update_trouble_items false items state).1 (view state)
unfolding update_trouble_items
update_trouble_items-AllNews [] state = tt
update_trouble_items-AllNews (item ∷ items) state =
    let (state', sent) = update_trouble_item false item state in
    let (state'', more) = update_trouble_items false items state' in
    AllNews-append sent more (view state) (AllNews-update_trouble_item item state) (
      rw (replay-update_trouble_item false state item) at
        (update_trouble_items-AllNews items state'))
