-- ===== src/Cache/Runs.antt =====
-- The theorems of the cache at concrete items.
use satel_integra.Common.{◌≡◌, refl, true, false, List, [], ◌∷◌, get_elem?, arith}
use mathlib.Core.Option
use satel_integra.State.{Zone, new_zone}
use satel_integra.Cache.Items.{update_items}
use satel_integra.Cache.Slots.{violation_slot}
use satel_integra.Cache.Agreement.{IsLawful, update_items_states}

violation-IsLawful : IsLawful violation_slot
violation-IsLawful = record { cell-put = λ c z. refl; id-put = λ c z. refl }

two_zones : List Zone
two_zones = new_zone 0 1 ∷ new_zone 0 2 ∷ []

update_items_states_example :
    Option.map
      (λ (z : Zone). z.violation.state)
      (get_elem? (update_items violation_slot false 5 (true ∷ false ∷ []) two_zones).0 1)
    ≡ get_elem? (true ∷ false ∷ []) 1
unfolding two_zones
update_items_states_example =
    update_items_states violation_slot violation-IsLawful false 5 (true ∷ false ∷ []) two_zones 1
      (omega arith) (omega arith)
