-- ===== src/Cache/Troubles/Latched.antt =====
-- What becomes of a reserved bit in the cache: once raised, its trouble stays.
use satel_integra.Common.{ℕ, Bool, true, false, ◌≡◌, refl, sym, ap, ◌∙◌, some, List, [], ◌∷◌, arith}
use satel_integra.Common.Maps.{find-insert}
use satel_integra.Error.{Result, ok, err}
use satel_integra.Command.{SatelCommand, to_byte}
use satel_integra.Config.{Config}
use satel_integra.State.{SatelState}
use satel_integra.Event.{SatelEvent}
use satel_integra.Troubles.Types.{
  TroubleType, TroubleItem, flag, acu_jam_level, cme_error, generic_trouble,
}
use satel_integra.Troubles.Custom.{is_generic}
use satel_integra.Troubles.Custom.Latch.{Keeps, AllKeep}
use satel_integra.Troubles.Decode.{decode_troubles}
use satel_integra.Troubles.Decode.Latch.{decode_troubles-AllKeep}
use satel_integra.Cache.Troubles.{
  flag_key, flag_key_discrete, update_trouble_item, update_trouble_items, update_troubles_internal,
}
use satel_integra.Cache.Troubles.Replay.{view}
use mathlib.Core.Logic.{if_pos, if_neg}
use satel_integra.Cache.Troubles.News.{told_by, update_troubles_internal-told_by}
use satel_integra.Troubles.Outcomes.{decode_troubles-Succeeds}
use mathlib.Core.Option.{get_or, some_inj}

module _ (part bit : ℕ) (memory : Bool) where
  -- The cache holds that the reserved bit is active.
  abbrev pub IsRaised : SatelState → Type 0
  IsRaised state = (view state).flags (generic_trouble part bit, memory) ≡ true

  pub flag-IsRaised :
      (emit_unchanged : Bool) (state : SatelState)
      → IsRaised
          (update_trouble_item emit_unchanged (flag (generic_trouble part bit) memory true) state).0
  unfolding update_trouble_item view
  flag-IsRaised emit_unchanged state =
      let key : TroubleType × Bool = (generic_trouble part bit, memory) in
      ap (λ o. get_or o false)
        (find-insert key key true state.trouble_flags ∙ if_pos (flag_key_discrete key key) refl _ _)

  update_trouble_item-IsRaised :
      (emit_unchanged : Bool) (item : TroubleItem) (state : SatelState)
      → Keeps item
      → IsRaised state
      → IsRaised (update_trouble_item emit_unchanged item state).0
  unfolding update_trouble_item view
  update_trouble_item-IsRaised emit_unchanged (flag t m active) state keeps raised =
      let key : TroubleType × Bool = (generic_trouble part bit, memory) in
      let after = find-insert key (t, m) active state.trouble_flags in
      elim (flag_key_discrete key (t, m)) [
        | yes e ↦
            let kind : is_generic t ≡ true =
              unfold is_generic in ap (λ k. is_generic k.0) (sym e) in
            let on : active ≡ true = ground arith in
            ap (λ o. get_or o false) (after ∙ if_pos (flag_key_discrete key (t, m)) e _ _) ∙ on
        | no ne ↦
            ap (λ o. get_or o false) (after ∙ if_neg (flag_key_discrete key (t, m)) ne _ _) ∙ raised
      ]
  update_trouble_item-IsRaised emit_unchanged (acu_jam_level jammed_module level) state keeps
        raised =
      raised
  update_trouble_item-IsRaised emit_unchanged (cme_error source sim m code) state keeps raised =
      raised

  update_trouble_items-IsRaised :
      (emit_unchanged : Bool) (items : List TroubleItem) (state : SatelState)
      → AllKeep items
      → IsRaised state
      → IsRaised (update_trouble_items emit_unchanged items state).0
  unfolding update_trouble_items
  update_trouble_items-IsRaised emit_unchanged [] state keep raised = raised
  update_trouble_items-IsRaised emit_unchanged (item ∷ items) state keep raised =
      update_trouble_items-IsRaised emit_unchanged items
        (update_trouble_item emit_unchanged item state).0 keep.1
        (update_trouble_item-IsRaised emit_unchanged item state keep.0 raised)

  told_by-IsRaised :
      (config : Config) (cmd : ℕ) (bytes : List ℕ) (state state' : SatelState)
      (sent : List SatelEvent) (decoded : Result (List TroubleItem))
      → decode_troubles cmd bytes ≡ some decoded
      → told_by config state decoded ≡ ok (state', sent)
      → IsRaised state
      → IsRaised state'
  told_by-IsRaised config cmd bytes state state' sent (err reason) e h raised = absurd cc
  told_by-IsRaised config cmd bytes state state' sent (ok items) e h raised =
      let after : (update_trouble_items config.emit_unchanged_troubles items state).0 ≡ state' =
        cc in
      rw after at (
        update_trouble_items-IsRaised config.emit_unchanged_troubles items state
          (decode_troubles-AllKeep cmd bytes items e) raised)

  -- No frame of troubles makes the cache hold a reserved bit as inactive that it holds as active: the
  -- trouble without a name stays raised, whatever the panel reports afterwards.
  pub update_troubles_internal-IsRaised :
      (config : Config) (cmd : SatelCommand) (bytes : List ℕ) (state state' : SatelState)
      (sent : List SatelEvent)
      → update_troubles_internal config cmd bytes state ≡ some (ok (state', sent))
      → IsRaised state
      → IsRaised state'
  update_troubles_internal-IsRaised config cmd bytes state state' sent h raised =
      let read = decode_troubles-Succeeds (to_byte cmd) bytes in
      let answer : told_by config state read.value ≡ ok (state', sent) =
        some_inj.0 (sym (update_troubles_internal-told_by config cmd bytes state) ∙ h) in
      told_by-IsRaised config (to_byte cmd) bytes state state' sent read.value read.returns answer
        raised
