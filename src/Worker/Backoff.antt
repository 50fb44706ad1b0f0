-- ===== src/Worker/Backoff.antt =====
-- src/worker.rs, `calculate_backoff`, in milliseconds.
use satel_integra.Common.{
  ℕ, zero, suc, ◌+◌, ◌-◌, ◌*◌, ◌^◌, ◌≤◌, ◌<◌, ◌≡◌, ◌⊎◌, ◌↔◌, inl, inr, min, false, ◌==◌,
  if◌then◌else◌, arith,
}

unfoldable pub calculate_backoff : ℕ → ℕ
calculate_backoff attempts =
    if attempts == 0 then 500 else min (500 * 2 ^ min (attempts - 1) 7) 60000

capped_exponent : (k : ℕ) → min (8 + k - 1) 7 ≡ 7
capped_exponent k = omega arith

calculate_backoff-capped : (k : ℕ) → calculate_backoff (8 + k) ≡ 60000
unfolding calculate_backoff
calculate_backoff-capped k =
    let c = capped_exponent k in let d : 8 + k == 0 ≡ false = ground arith in rw (d, c)

abbrev Rising : ℕ → Type 0
Rising n =
    n < 8
    × 500 ≤ calculate_backoff n
    × calculate_backoff n ≤ calculate_backoff (suc n)
    × calculate_backoff n < 60000

first_steps : Rising 0 × Rising 1 × Rising 2 × Rising 3 × Rising 4 × Rising 5 × Rising 6 × Rising 7
unfolding calculate_backoff
first_steps = ground arith

Rising-cases : (n : ℕ) → Rising n ⊎ ((k : ℕ) × (n ≡ 8 + k))
Rising-cases zero = inl first_steps.0
Rising-cases (suc zero) = inl first_steps.1
Rising-cases (suc (suc zero)) = inl first_steps.2
Rising-cases (suc (suc (suc zero))) = inl first_steps.3
Rising-cases (suc (suc (suc (suc zero)))) = inl first_steps.4
Rising-cases (suc (suc (suc (suc (suc zero))))) = inl first_steps.5
Rising-cases (suc (suc (suc (suc (suc (suc zero)))))) = inl first_steps.6
Rising-cases (suc (suc (suc (suc (suc (suc (suc zero))))))) = inl first_steps.7
Rising-cases (suc (suc (suc (suc (suc (suc (suc (suc n)))))))) = inr (n, omega arith)

bounds : (n : ℕ) → 500 ≤ calculate_backoff n × calculate_backoff n ≤ 60000
bounds n = elim (Rising-cases n) [
  | inl s ↦ omega arith
  | inr (k, e) ↦ let c = calculate_backoff-capped k in rw (e, c) (omega arith, omega arith)
]

rises : (n : ℕ) → calculate_backoff n ≤ calculate_backoff (suc n)
rises n = elim (Rising-cases n) [
  | inl s ↦ s.2
  | inr (k, e) ↦
      let c = calculate_backoff-capped k in
      let f : 8 + suc k ≡ suc (8 + k) = omega arith in
      let d = rw f at (calculate_backoff-capped (suc k)) in rw (e, c, d) (omega arith)
]

rises_by : (n k : ℕ) → calculate_backoff n ≤ calculate_backoff (k + n)
rises_by n zero = let e : 0 + n ≡ n = omega arith in rw e (omega arith)
rises_by n (suc k) =
    let ih = rises_by n k in
    let s = rises (k + n) in let e : suc k + n ≡ suc (k + n) = omega arith in rw e (omega arith)

minute : (n : ℕ) → (calculate_backoff n ≡ 60000) ↔ (8 ≤ n)
minute n = elim (Rising-cases n) [
  | inl (l, _, _, m) ↦ ((λ h. absurd (omega (arith, h, m))), λ h. absurd (omega (arith, h, l)))
  | inr (k, e) ↦ let c = calculate_backoff-capped k in ((λ h. omega (arith, e)), λ h. rw (e, c))
]

-- A later attempt waits at least as long as an earlier one; the wait is between half a second and
-- a minute, and it is a minute exactly from the eighth failed attempt on.
pub calculate_backoff_lem :
    (n m : ℕ)
    → n ≤ m
    → calculate_backoff n ≤ calculate_backoff m
      × (500 ≤ calculate_backoff n × calculate_backoff n ≤ 60000)
      × ((calculate_backoff n ≡ 60000) ↔ (8 ≤ n))
calculate_backoff_lem n m h =
    let k = rises_by n (m - n) in
    let e : m - n + n ≡ m = omega arith in
    let k' : calculate_backoff n ≤ calculate_backoff m = rw e at k in (k', bounds n, minute n)
