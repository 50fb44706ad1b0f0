-- ===== src/Common/Panics.antt =====
-- What a Rust expression does that may panic: `none` is the panic.
use Prim.Native.Nat.{ℕ, zero, suc, ◌-◌, ◌≤◌, ◌<◌}
use mathlib.Core.Path.{◌≡◌, refl, subst}
use mathlib.Core.Logic.{inl, inr}
use mathlib.Core.Bool.{◌&&◌}
use mathlib.Core.List.{List, [], ◌∷◌}
use mathlib.Core.Option.{Option, none, some, some_inj}
use native.Mathlib.Omega.{arith}
use satel_integra.Common.Tests.{leb, leb_of_le, Option-cases, if◌then◌else◌}
use satel_integra.Common.Lists.{length, get_elem?, take, drop}

infixl 5 ◌>>=◌
abbrev pub ◌>>=◌ {ℓ₁ ℓ₂} : {A : Type ℓ₁} {B : Type ℓ₂} → Option A → (A → Option B) → Option B
none >>= next = none
some value >>= next = next value

-- The step does not panic.
pub record Succeeds {ℓ} {A : Type ℓ} (step : Option A) : Type ℓ where
  pub value : A
  pub returns : step ≡ some value

pub some-Succeeds {ℓ} : {A : Type ℓ} (value : A) → Succeeds (some value)
some-Succeeds value = record { value = value; returns = refl }

module _ {ℓ} {A : Type ℓ} where
  -- `xs[first..last]`; an index alone is `get_elem?`.
  abbrev pub slice : List A → ℕ → ℕ → Option (List A)
  slice xs first last =
      if leb first last && leb last (length xs)
      then some (take (last - first) (drop first xs))
      else none

  -- An index in range does not panic.
  pub get_elem?-lt : (xs : List A) (i : ℕ) → i < length xs → (x : A) × (get_elem? xs i ≡ some x)
  get_elem?-lt [] i h = absurd (omega arith)
  get_elem?-lt (x ∷ xs) zero h = (x, refl)
  get_elem?-lt (x ∷ xs) (suc i) h = get_elem?-lt xs i (omega arith)

  pub slice-le :
      (xs : List A) (first last : ℕ)
      → first ≤ last
      → last ≤ length xs
      → slice xs first last ≡ some (take (last - first) (drop first xs))
  slice-le xs first last h k = rw (leb_of_le first last h, leb_of_le last (length xs) k)

  pub get_elem?-Succeeds : (xs : List A) (i : ℕ) → i < length xs → Succeeds (get_elem? xs i)
  get_elem?-Succeeds xs i h = let (x, e) = get_elem?-lt xs i h in record { value = x; returns = e }

  pub slice-Succeeds :
      (xs : List A) (first last : ℕ)
      → first ≤ last
      → last ≤ length xs
      → Succeeds (slice xs first last)
  slice-Succeeds xs first last h k = record {
    value = take (last - first) (drop first xs);
    returns = slice-le xs first last h k;
  }

-- A chain of steps does not panic if no step does.
pub bind-Succeeds {ℓ₁ ℓ₂} :
    {A : Type ℓ₁} {B : Type ℓ₂} {step : Option A} {next : A → Option B}
    → Succeeds step
    → ((value : A) → Succeeds (next value))
    → Succeeds (step >>= next)
bind-Succeeds h k = record { value = (k h.value).value; returns = rw h.returns (k h.value).returns }

-- What holds of a step's value, if it does not panic.
pub record Ensures {A : Type 0} (P : A → Type 0) (step : Option A) : Type 0 where
  pub holds : (value : A) → step ≡ some value → P value

pub some-Ensures : {A : Type 0} {P : A → Type 0} (value : A) → P value → Ensures P (some value)
some-Ensures {P} value h = record { holds = λ other e. subst P (some_inj.0 e) h }

pub bind-Ensures :
    {A B : Type 0} {Q : A → Type 0} {P : B → Type 0} {step : Option A} {next : A → Option B}
    → Ensures Q step
    → ((value : A) → Q value → Ensures P (next value))
    → Ensures P (step >>= next)
bind-Ensures {step} {next} h k = record {
  holds = λ b e. elim (Option-cases step) [
    | inl n ↦ absurd cc
    | inr (a, s) ↦ (k a (h.holds a s)).holds b (rw s at e)
  ];
}

-- Nothing is known of a step.
pub any-Ensures : {A : Type 0} (step : Option A) → Ensures (λ value. Unit {0}) step
any-Ensures step = record { holds = λ value e. tt }
