-- ===== src/Cache/Troubles/Replay.antt =====
-- The events of `update_troubles_internal` tell a subscriber all that the cache knows of the troubles.
use satel_integra.Common.{
  ℕ, Bool, true, false, not, ◌||◌, ◌≡◌, refl, sym, ap, ◌∙◌, List, [], ◌∷◌, ◌++◌, ◌==◌,
  if◌then◌else◌, arith,
}
use satel_integra.Common.Maps.{Key, find, insert, find-insert}
use satel_integra.State.{SatelState}
use satel_integra.Event.{SatelEvent}
use satel_integra.Troubles.Types.{
  TroubleType, CmeSource, TroubleItem, flag, acu_jam_level, cme_error,
}
use satel_integra.Cache.Items.{differ}
use satel_integra.Cache.Troubles.{
  flag_key, level_key, cme_key, flag_event, update_trouble_item, update_trouble_items,
}
use mathlib.Core.Path.{fun_ext}
use mathlib.Core.Logic.{ite, if_pos, if_neg}
use mathlib.Core.Option.{get_or}

-- What a subscriber knows: a trouble that was never told of is off, and a level or a code 0.
pub record View : Type 0 where
  pub flags : TroubleType × Bool → Bool
  pub levels : ℕ → ℕ
  pub codes : CmeSource × ℕ × Bool → ℕ

unfoldable pub view : SatelState → View
view state = record {
  flags = λ k. get_or (find k state.trouble_flags) false;
  levels = λ k. get_or (find k state.acu_jam_levels) 0;
  codes = λ k. get_or (find k state.cme_errors) 0;
}

-- A function, changed at one key.
abbrev pub at_key {ℓ} : {K V : Type ℓ} → ⦃key : Key K⦄ → (K → V) → K → V → K → V
at_key {K} {V} ⦃key⦄ f k v q = ite (key.eq q k) v (f q)

unfoldable pub tell : SatelEvent → View → View
tell (SatelEvent.trouble t active) v = record v { flags = at_key v.flags (t, false) active }
tell (SatelEvent.trouble_memory t active) v = record v { flags = at_key v.flags (t, true) active }
tell (SatelEvent.acu_jam_level jammed_module level) v = record v {
  levels = at_key v.levels jammed_module level;
}
tell (SatelEvent.cme_error source sim code memory) v = record v {
  codes = at_key v.codes (source, sim, memory) code;
}
tell _ v = v

unfoldable pub replay : List SatelEvent → View → View
unfolding tell
replay [] v = v
replay (e ∷ es) v = replay es (tell e v)

pub replay-append :
    (es fs : List SatelEvent) (v : View) → replay (es ++ fs) v ≡ replay fs (replay es v)
unfolding replay
replay-append [] fs v = refl
replay-append (e ∷ es) fs v = replay-append es fs (tell e v)

pub get_or-insert {ℓ} :
    {K V : Type ℓ} ⦃key : Key K⦄ (k : K) (v d : V) (m : List (K × V))
    → (λ q. get_or (find q (insert k v m)) d) ≡ at_key (λ q. get_or (find q m) d) k v
get_or-insert k v d m = fun_ext λ q. ground (arith, find-insert q k v m)

-- Where the value stays, nothing needs to be told.
at_key_self {ℓ} :
    {K V : Type ℓ} ⦃key : Key K⦄ (f : K → V) (k : K) (v : V) → f k ≡ v → at_key f k v ≡ f
at_key_self ⦃key = key⦄ f k v h = fun_ext λ q. elim (key.eq q k) [
  | yes e ↦ if_pos (key.eq q k) e v (f q) ∙ sym h ∙ ap f (sym e)
  | no ne ↦ if_neg (key.eq q k) ne v (f q)
]

quiet : (changed emit : Bool) → changed || emit ≡ false → changed ≡ false
quiet changed emit h = ground arith

differ_eq : (a b : Bool) → differ a b ≡ false → a ≡ b
differ_eq true true h = refl
differ_eq true false h = absurd cc
differ_eq false true h = absurd cc
differ_eq false false h = refl

not-==_eq : (a b : ℕ) → not (a == b) ≡ false → a ≡ b
not-==_eq a b h = ground arith

-- An event that tells the change, sent unless there is none.
told :
    (b : Bool) (e : SatelEvent) (before after : View)
    → tell e before ≡ after
    → (b ≡ false → after ≡ before)
    → after ≡ replay (if b then e ∷ [] else []) before
unfolding replay
told true e before after tells same = sym tells
told false e before after tells same = same refl

tell-flag_event :
    (memory active : Bool) (t : TroubleType) (v : View)
    → tell (flag_event memory t active) v ≡ record v { flags = at_key v.flags (t, memory) active }
unfolding flag_event tell
tell-flag_event true active t v = refl
tell-flag_event false active t v = refl

module _ (emit_unchanged : Bool) (state : SatelState) where
  flags_after :
      (k : TroubleType × Bool) (active : Bool)
      → view (record state { trouble_flags = insert k active state.trouble_flags })
        ≡ record (view state) { flags = at_key (view state).flags k active }
  unfolding view
  flags_after k active =
      ap (λ f. record (view state) { flags = f }) (get_or-insert k active false state.trouble_flags)

  levels_after :
      (k level : ℕ)
      → view (record state { acu_jam_levels = insert k level state.acu_jam_levels })
        ≡ record (view state) { levels = at_key (view state).levels k level }
  unfolding view
  levels_after k level =
      ap (λ f. record (view state) { levels = f }) (get_or-insert k level 0 state.acu_jam_levels)

  codes_after :
      (k : CmeSource × ℕ × Bool) (code : ℕ)
      → view (record state { cme_errors = insert k code state.cme_errors })
        ≡ record (view state) { codes = at_key (view state).codes k code }
  unfolding view
  codes_after k code =
      ap (λ f. record (view state) { codes = f }) (get_or-insert k code 0 state.cme_errors)

  pub replay-update_trouble_item :
      (item : TroubleItem)
      → view (update_trouble_item emit_unchanged item state).0
        ≡ replay (update_trouble_item emit_unchanged item state).1 (view state)
  unfolding update_trouble_item view
  replay-update_trouble_item (flag t memory active) =
      told _ (flag_event memory t active) (view state) _
        (tell-flag_event memory active t (view state) ∙ sym (flags_after (t, memory) active))
        λ unchanged.
          flags_after (t, memory) active
          ∙ ap (λ f. record (view state) { flags = f })
              (at_key_self (view state).flags (t, memory) active
                (differ_eq _ _ (quiet _ _ unchanged)))
  replay-update_trouble_item (acu_jam_level jammed_module level) =
      told _ _ (view state) _ (unfold tell in refl ∙ sym (levels_after jammed_module level))
        λ unchanged.
          levels_after jammed_module level
          ∙ ap (λ f. record (view state) { levels = f })
              (at_key_self (view state).levels jammed_module level
                (not-==_eq _ _ (quiet _ _ unchanged)))
  replay-update_trouble_item (cme_error source sim memory code) =
      told _ _ (view state) _ (unfold tell in refl ∙ sym (codes_after (source, sim, memory) code))
        λ unchanged.
          codes_after (source, sim, memory) code
          ∙ ap (λ f. record (view state) { codes = f })
              (at_key_self (view state).codes (source, sim, memory) code
                (not-==_eq _ _ (quiet _ _ unchanged)))

-- A subscriber who knows what the cache knows of the troubles, and hears the events that a list of
-- troubles sends, knows what the cache knows afterwards, whether or not events for unchanged
-- troubles are asked for.
pub replay-update_trouble_items :
    (emit_unchanged : Bool) (items : List TroubleItem) (state : SatelState)
    → view (update_trouble_items emit_unchanged items state).0
      ≡ replay (update_trouble_items emit_unchanged items state).1 (view state)
unfolding update_trouble_items
replay-update_trouble_items emit_unchanged [] state = unfold replay in refl
replay-update_trouble_items emit_unchanged (item ∷ items) state =
    let (state', sent) = update_trouble_item emit_unchanged item state in
    let (state'', more) = update_trouble_items emit_unchanged items state' in
    replay-update_trouble_items emit_unchanged items state'
    ∙ ap (replay more) (replay-update_trouble_item emit_unchanged state item)
    ∙ sym (replay-append sent more (view state))
