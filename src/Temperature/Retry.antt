-- ===== src/Temperature/Retry.antt =====
-- A blocked temperature probe is tried again, if unblocking is enabled for it and its limits allow an
-- error.
use satel_integra.Common.{
  ℕ, zero, suc, ◌+◌, ◌-◌, ◌*◌, max, ◌%◌, ◌^◌, ◌≤◌, ◌<◌, ◌≡◌, refl, sym, inl, inr, Bool, Bool-cases,
  true, false, ◌&&◌, leb, if◌then◌else◌, arith,
}
use native.Mathlib.Nat.{mul-suc}
use satel_integra.State.{Zone, retry_read}
use satel_integra.Temperature.{TempLimits, is_blocked, refuse, is_status}
use satel_integra.Temperature.Reachable.{Reachable, IsUsable, IsWaiting, Reachable-IsWaiting}

-- The zone after `n` calls for it, as long as they are refused.
unfoldable pub refusals : TempLimits → ℕ → Zone → Zone
refusals limits zero z = z
refusals limits (suc n) z =
    let rest = refusals limits n (refuse limits z).0 in if is_blocked limits z then rest else z

-- The next call for the zone is a reading.
pub record IsRetried (limits : TempLimits) (z : Zone) : Type 0 where
  pub free : is_blocked limits z ≡ false
  pub status : z.temperature_status ≡ retry_read

-- By how many errors a zone is past its limits.
unfoldable pub excess : TempLimits → Zone → ℕ
excess limits z =
    max (z.temperature_timeout_errors_current - limits.max_timeout_errors)
      (z.temperature_sensor_errors_current - limits.max_sensor_errors)

still-refused :
    (limits : TempLimits) (n : ℕ) (z : Zone) → is_blocked limits z ≡ false → refusals limits n z ≡ z
unfolding refusals
still-refused limits zero z free = refl
still-refused limits (suc n) z free = rw free refl

refusals_add :
    (limits : TempLimits) (n m : ℕ) (z : Zone)
    → refusals limits (n + m) z ≡ refusals limits m (refusals limits n z)
unfolding refusals
refusals_add limits zero m z = let e : 0 + m ≡ m = omega arith in rw e refl
refusals_add limits (suc n) m z =
    let e : suc n + m ≡ suc (n + m) = omega arith in
    elim (Bool-cases (is_blocked limits z)) [
      | inl b ↦ rw (e, b) (refusals_add limits n m (refuse limits z).0)
      | inr b ↦ rw (e, b) (sym (still-refused limits m z b))
    ]

-- Both counters are past their limits by `k` at most.
record Past (limits : TempLimits) (k : ℕ) (z : Zone) : Type 0 where
  timeouts : z.temperature_timeout_errors_current ≤ limits.max_timeout_errors + k
  sensors : z.temperature_sensor_errors_current ≤ limits.max_sensor_errors + k

-- The zone was just unblocked, and each counter that was full has lost one.
record Unblocked (limits : TempLimits) (k : ℕ) (z : Zone) : Type 0 where
  status : z.temperature_status ≡ retry_read
  cycles : z.temperature_blocked_cycles ≡ 0
  timeouts : z.temperature_timeout_errors_current < limits.max_timeout_errors + k
  sensors : z.temperature_sensor_errors_current < limits.max_sensor_errors + k

module _ (limits : TempLimits) (usable : IsUsable limits) (on : limits.unblock_enabled ≡ true) where
  unblocked :
      (k : ℕ) (z : Zone)
      → Past limits k z
      → z.temperature_blocked_cycles + 1 ≡ limits.unblock_after_cycles
      → Unblocked limits k (refuse limits z).0
  unfolding refuse is_status
  unblocked k z h last =
      let t = h.timeouts in
      let s = h.sensors in
      let fits = usable.waits_fit in
      let t1 = usable.timeouts in
      let s1 = usable.sensors in
      let due : limits.unblock_enabled
            && leb limits.unblock_after_cycles ((z.temperature_blocked_cycles + 1) % 2 ^ 32)
          ≡ true =
        ground arith in
      record {
        status = rw due refl;
        cycles = rw due refl;
        timeouts = rw due (ground arith);
        sensors = rw due (ground arith);
      }

  still_blocked :
      (k : ℕ) (z : Zone)
      → Past limits k z
      → z.temperature_blocked_cycles + 1 < limits.unblock_after_cycles
      → (is_blocked limits (refuse limits z).0 ≡ true)
        × ((refuse limits z).0.temperature_blocked_cycles ≡ z.temperature_blocked_cycles + 1)
        × Past limits k (refuse limits z).0
  unfolding refuse is_blocked is_status
  still_blocked k z h early =
      let fits = usable.waits_fit in
      let early_yet : limits.unblock_enabled
            && leb limits.unblock_after_cycles ((z.temperature_blocked_cycles + 1) % 2 ^ 32)
          ≡ false =
        ground arith in
      (
        rw early_yet (ground arith),
        rw early_yet (omega arith),
        rw early_yet (record { timeouts = h.timeouts; sensors = h.sensors }),
      )

  -- The refusals until the zone is unblocked, once.
  Unblocked-refusals :
      (k n : ℕ) (z : Zone)
      → Past limits k z
      → is_blocked limits z ≡ true
      → z.temperature_blocked_cycles + suc n ≡ limits.unblock_after_cycles
      → Unblocked limits k (refusals limits (suc n) z)
  unfolding refusals
  Unblocked-refusals k zero z h b due = rw b (unblocked k z h due)
  Unblocked-refusals k (suc n) z h b due =
      let (blocked, count, past) = still_blocked k z h (omega arith) in
      rw b (Unblocked-refusals k n (refuse limits z).0 past blocked (omega arith))

  last-IsRetried : (z : Zone) → Unblocked limits 0 z → IsRetried limits z
  unfolding is_blocked is_status
  last-IsRetried z u =
      let t = u.timeouts in
      let s = u.sensors in let r = u.status in record { free = rw r (ground arith); status = r }

  retried :
      (k : ℕ) (z : Zone)
      → Past limits k z
      → IsWaiting limits z
      → is_blocked limits z ≡ true
      → (n : ℕ) × (n ≤ limits.unblock_after_cycles * suc k) × IsRetried limits (refusals limits n z)
  retried zero z h waiting b =
      let soon = waiting on in
      let n = limits.unblock_after_cycles - z.temperature_blocked_cycles - 1 in
      (
        suc n,
        omega (arith, mul-suc limits.unblock_after_cycles 0),
        last-IsRetried _ (Unblocked-refusals 0 n z h b (omega arith)),
      )
  retried (suc k) z h waiting b =
      let soon = waiting on in
      let n = limits.unblock_after_cycles - z.temperature_blocked_cycles - 1 in
      let u = Unblocked-refusals (suc k) n z h b (omega arith) in
      let w = refusals limits (suc n) z in
      let bound = mul-suc limits.unblock_after_cycles (suc k) in
      let t = u.timeouts in
      let s = u.sensors in
      let c = u.cycles in
      elim (Bool-cases (is_blocked limits w)) [
        | inr free ↦ (suc n, omega (arith, bound), record { free = free; status = u.status })
        | inl again ↦
            let (m, le, done) =
              retried k w (record { timeouts = omega arith; sensors = omega arith })
                (λ e. let first = usable.waits in omega arith) again in
            (suc n + m, omega (arith, bound), rw (refusals_add limits (suc n) m z) done)
      ]

  -- Whatever calls for its temperature a zone has seen since the program started, by the blocking call or
  -- by those that do not look: if it is blocked and unblocking is enabled for it, then after finitely many
  -- refused calls it is no longer blocked, and the next call reads the sensor again. If no counter of
  -- errors is past its limit, these are as many as the limits say at most, and as many again for each
  -- error by which the fuller counter is past it. The limits are at least 1 and fit 32 bits, and stay what
  -- they are.
  pub Reachable-IsRetried :
      (tested : Bool) (z : Zone)
      → Reachable limits tested z
      → is_blocked limits z ≡ true
      → (n : ℕ) × (n ≤ limits.unblock_after_cycles * suc (excess limits z))
        × IsRetried limits (refusals limits n z)
  unfolding excess
  Reachable-IsRetried tested z reached b =
      retried (excess limits z) z (record { timeouts = omega arith; sensors = omega arith })
        (Reachable-IsWaiting limits usable.waits tested z reached) b
