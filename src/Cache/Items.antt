-- ===== src/Cache/Items.antt =====
-- The body and the loop that the updates of src/client_internal.rs share.
use satel_integra.Common.{
  ℕ, Bool, true, false, not, ◌||◌, Option, none, some, List, [], ◌∷◌, ◌++◌, if◌then◌else◌,
}
use satel_integra.State.{Cell}
use satel_integra.Event.{SatelEvent}

pub record Slot {ℓ} (A : Type ℓ) : Type ℓ where
  pub cell : A → Cell
  pub put : Cell → A → A
  pub id : A → ℕ
  pub event : ℕ → Bool → SatelEvent

-- `!=` on flags.
abbrev pub differ : Bool → Bool → Bool
differ true b = not b
differ false b = b

abbrev pub is_none {ℓ} : {A : Type ℓ} → Option A → Bool
is_none none = true
is_none (some a) = false

module _ {ℓ} {A : Type ℓ} (slot : Slot A) (emit : Bool) (read_at : ℕ) where
  -- The body of the loops: `emit` is `emit_all || config.emit_unchanged_…`.
  unfoldable pub update_item : Bool → A → A × List SatelEvent
  update_item new_state item =
      let is_initial = is_none (slot.cell item).read_at in
      let changed = differ (slot.cell item).state new_state in
      if emit || (is_initial || changed)
      then (
        slot.put (record { state = new_state; read_at = some read_at }) item,
        slot.event (slot.id item) new_state ∷ [],
      )
      else (item, [])

  -- `for (i, &new_state) in states.iter().enumerate() { if let Some(item) = items.get_mut(i) … }`
  unfoldable pub update_items : List Bool → List A → List A × List SatelEvent
  unfolding update_item
  update_items [] items = (items, [])
  update_items (s ∷ states) [] = ([], [])
  update_items (s ∷ states) (item ∷ items) =
      let (item', sent) = update_item s item in
      let (items', more) = update_items states items in (item' ∷ items', sent ++ more)
