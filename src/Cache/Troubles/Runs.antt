-- ===== src/Cache/Troubles/Runs.antt =====
-- Troubles in the cache.
use satel_integra.Common.{◌≡◌, refl, true, false, some, List, [], ◌∷◌}
use satel_integra.Error.{Result, ok}
use satel_integra.Command.{SatelCommand, to_byte}
use satel_integra.Config.{default_config}
use satel_integra.Encryption.{repeat}
use satel_integra.State.{SatelState, new_state}
use satel_integra.Event.{SatelEvent}
use satel_integra.Troubles.Custom.{decode_gsm_block}
use satel_integra.Troubles.Rules.{get_rules}
use satel_integra.Troubles.Decode.{decode_troubles}
use satel_integra.Troubles.Types.{
  TroubleItem, flag, acu_jam_level, main_board_ac_loss, generic_trouble,
}
use satel_integra.Cache.Troubles.{update_trouble_items, update_troubles_internal}
use satel_integra.Cache.Troubles.Replay.{view, replay}
use satel_integra.Cache.Troubles.News.{
  AllNews, update_troubles_internal-told, update_trouble_items-AllNews,
}
use satel_integra.Cache.Troubles.Latched.{
  IsRaised, flag-IsRaised, update_troubles_internal-IsRaised,
}

abbrev mains : List TroubleItem
mains =
    flag main_board_ac_loss false true ∷ acu_jam_level 3 5 ∷ flag main_board_ac_loss false true ∷ []

update_trouble_items-AllNews_example :
    AllNews (update_trouble_items false mains (new_state 1)).1 (view (new_state 1))
update_trouble_items-AllNews_example = update_trouble_items-AllNews mains (new_state 1)

update_troubles_internal-told_example :
    (answer : Result (SatelState × List SatelEvent)) × (update_troubles_internal default_config
        SatelCommand.troubles_part1
        (repeat 47 3)
        (new_state 1)
      ≡ some answer)
    × ((state' : SatelState) (sent : List SatelEvent)
        → answer ≡ ok (state', sent)
        → view state' ≡ replay sent (view (new_state 1)))
update_troubles_internal-told_example =
    update_troubles_internal-told default_config SatelCommand.troubles_part1 (repeat 47 3)
      (new_state 1)

-- A frame that raises the reserved bit 1 of the fourth byte of the first module.
abbrev raised : SatelState
raised = (update_trouble_items false (flag (generic_trouble 7 25) false true ∷ []) (new_state 1)).0

raised-IsRaised : IsRaised 7 25 false raised
unfolding update_trouble_items
raised-IsRaised = flag-IsRaised 7 25 false false (new_state 1)

-- All bytes of the next frame are clear.
cleared :
    (after : SatelState × List SatelEvent) × (update_troubles_internal default_config
        SatelCommand.troubles_part8
        (repeat 64 0)
        raised
      ≡ some (ok after))
unfolding update_troubles_internal to_byte decode_troubles get_rules decode_gsm_block
cleared = (_, refl)

update_troubles_internal-IsRaised_example : IsRaised 7 25 false cleared.0.0
update_troubles_internal-IsRaised_example =
    update_troubles_internal-IsRaised 7 25 false default_config SatelCommand.troubles_part8
      (repeat 64 0) raised cleared.0.0 cleared.0.1 cleared.1 raised-IsRaised
