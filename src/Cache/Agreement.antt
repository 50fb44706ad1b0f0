-- ===== src/Cache/Agreement.antt =====
-- What the cache holds after an update: the frame's states, in every slot that the source uses.
use satel_integra.Common.{
  ℕ, zero, suc, ◌<◌, ◌≤◌, ◌≡◌, refl, ap, Bool, false, ◌||◌, some, List, [], ◌∷◌, length, get_elem?,
  arith, Bool-cases, inl, inr, map,
}
use satel_integra.State.{Cell}
use satel_integra.Cache.Items.{Slot, differ, is_none, update_item, update_items}
use mathlib.Core.Option

-- A slot writes the cell that it reads, and leaves the item's number alone.
pub record IsLawful {ℓ} {A : Type ℓ} (slot : Slot A) : Type ℓ where
  pub cell-put : (c : Cell) (a : A) → slot.cell (slot.put c a) ≡ c
  pub id-put : (c : Cell) (a : A) → slot.id (slot.put c a) ≡ slot.id a

differ-false : (a b : Bool) → differ a b ≡ false → a ≡ b
differ-false a b h = ground arith

differ_self : (a : Bool) → differ a a ≡ false
differ_self a = ground arith

module _ {ℓ} {A : Type ℓ} (slot : Slot A) (lawful : IsLawful slot) (emit : Bool) (read_at : ℕ) where
  abbrev skips : Bool → A → Bool
  skips s a = emit || (is_none (slot.cell a).read_at || differ (slot.cell a).state s)

  -- An item that is skipped has been read before, and holds the frame's state already.
  update_item_state :
      (s : Bool) (a : A) → (slot.cell (update_item slot emit read_at s a).0).state ≡ s
  unfolding update_item
  update_item_state s a = elim (Bool-cases (skips s a)) [
    | inl e ↦ rw e (ap (λ c. c.state) (lawful.cell-put _ a))
    | inr e ↦ rw e (differ-false _ s (ground (arith, e)))
  ]

  update_item_id : (s : Bool) (a : A) → slot.id (update_item slot emit read_at s a).0 ≡ slot.id a
  unfolding update_item
  update_item_id s a = elim (Bool-cases (skips s a)) [
    | inl e ↦ rw e (lawful.id-put _ a)
    | inr e ↦ rw e
  ]

  update_item_read :
      (s : Bool) (a : A) → is_none (slot.cell (update_item slot emit read_at s a).0).read_at ≡ false
  unfolding update_item
  update_item_read s a = elim (Bool-cases (skips s a)) [
    | inl e ↦ rw e (ap (λ c. is_none c.read_at) (lawful.cell-put _ a))
    | inr e ↦ rw e (ground (arith, e))
  ]

  -- After an update each item that the frame covers holds the frame's state.
  pub update_items_states :
      (states : List Bool) (items : List A) (i : ℕ)
      → i < length states
      → i < length items
      → Option.map
          (λ a. (slot.cell a).state)
          (get_elem? (update_items slot emit read_at states items).0 i)
        ≡ get_elem? states i
  unfolding update_items
  update_items_states [] items i h k = absurd (omega arith)
  update_items_states (s ∷ states) [] i h k = absurd (omega arith)
  update_items_states (s ∷ states) (a ∷ items) zero h k = ap some (update_item_state s a)
  update_items_states (s ∷ states) (a ∷ items) (suc i) h k =
      update_items_states states items i (omega arith) (omega arith)

  -- Items behind the end of the frame stay as they are, and no item is added.
  pub update_items_beyond :
      (states : List Bool) (items : List A) (i : ℕ)
      → length states ≤ i
      → get_elem? (update_items slot emit read_at states items).0 i ≡ get_elem? items i
  unfolding update_items
  update_items_beyond [] items i h = refl
  update_items_beyond (s ∷ states) [] i h = refl
  update_items_beyond (s ∷ states) (a ∷ items) zero h = absurd (omega arith)
  update_items_beyond (s ∷ states) (a ∷ items) (suc i) h =
      update_items_beyond states items i (omega arith)

  pub update_items_ids :
      (states : List Bool) (items : List A)
      → map slot.id (update_items slot emit read_at states items).0 ≡ map slot.id items
  unfolding update_items
  update_items_ids [] items = refl
  update_items_ids (s ∷ states) [] = refl
  update_items_ids (s ∷ states) (a ∷ items) = rw (update_item_id s a, update_items_ids states items)

  -- A cell that holds the state already, and has been read, is passed over.
  settled :
      (later : ℕ) (s : Bool) (a : A)
      → (slot.cell a).state ≡ s
      → is_none (slot.cell a).read_at ≡ false
      → update_item slot false later s a ≡ (a, [])
  unfolding update_item
  settled later s a same read = rw (read, same, differ_self s)

  -- A frame that comes a second time changes nothing and sends nothing, unless all positions are
  -- to be sent.
  pub update_items_again :
      (later : ℕ) (states : List Bool) (items : List A)
      → let once = (update_items slot emit read_at states items).0 in
        update_items slot false later states once ≡ (once, [])
  unfolding update_items
  update_items_again later [] items = refl
  update_items_again later (s ∷ states) [] = refl
  update_items_again later (s ∷ states) (a ∷ items) = rw (
    settled later s (update_item slot emit read_at s a).0 (update_item_state s a)
        (update_item_read s a),
    update_items_again later states items,
  )
