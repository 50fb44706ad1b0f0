-- ===== src/Common/Ranges.antt =====
-- Tests of every number below a bound, for what holds by running through the bytes.
use Prim.Native.Nat.{ℕ, zero, suc, ◌<◌}
use mathlib.Core.Path.{◌≡◌}
use mathlib.Core.Logic.{◌⊎◌, inl, inr}
use mathlib.Core.Bool.{Bool, true, ◌&&◌}
use native.Mathlib.Omega.{arith}

unfoldable pub every : (ℕ → Bool) → ℕ → Bool
every test zero = true
every test (suc n) = every test n && test n

last_or_before : (k n : ℕ) → k < suc n → (k ≡ n) ⊎ (k < n)
last_or_before k n h = omega arith

pub every-at : (test : ℕ → Bool) (n k : ℕ) → every test n ≡ true → k < n → test k ≡ true
unfolding every
every-at test zero k e h = absurd (omega arith)
every-at test (suc n) k e h = elim (last_or_before k n h) [
  | inl q ↦ let e' : test n ≡ true = ground arith in rw q e'
  | inr q ↦ let e' : every test n ≡ true = ground arith in every-at test n k e' q
]
