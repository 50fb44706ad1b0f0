-- ===== src/Common/Maps.antt =====
-- A map as an association list, with the operations of a `HashMap` that the source uses.
use mathlib.Core.Path.{◌≡◌, refl}
use mathlib.Core.Logic.{ite}
use mathlib.Core.HLevel.{Discrete}
use mathlib.Core.List.{List, [], ◌∷◌}
use mathlib.Core.Option.{Option, none, some}
use native.Mathlib.Omega.{arith}

-- Keys that can be compared.
pub record Key {ℓ} (K : Type ℓ) : Type ℓ where
  pub eq : Discrete K

module _ {ℓ} {K V : Type ℓ} ⦃key : Key K⦄ where
  unfoldable pub find : K → List (K × V) → Option V
  find k [] = none
  find k ((j, v) ∷ m) = ite (key.eq k j) (some v) (find k m)

  unfoldable pub insert : K → V → List (K × V) → List (K × V)
  insert k v [] = (k, v) ∷ []
  insert k v ((j, w) ∷ m) = let rest = insert k v m in ite (key.eq k j) ((k, v) ∷ m) ((j, w) ∷ rest)

  pub find-insert :
      (q k : K) (v : V) (m : List (K × V))
      → find q (insert k v m) ≡ ite (key.eq q k) (some v) (find q m)
  unfolding find insert
  find-insert q k v [] = refl
  find-insert q k v ((j, w) ∷ m) = ground (arith, find-insert q k v m)
