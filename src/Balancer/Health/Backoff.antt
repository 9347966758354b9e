-- ===== src/Balancer/Health/Backoff.antt =====
-- When `HealthRegistry::mark_failure` makes an endpoint cool, and for how long.
use xrouter.Common.{
  ℕ, zero, suc, ◌+◌, ◌*◌, ◌-◌, ◌^◌, ◌<◌, ◌≤◌, ◌≡◌, refl, ◌⊎◌, inl, inr, Bool, false, arith, min,
}
use native.Mathlib.Nat.{pow-suc}
use xrouter.Balancer.Health.{from_secs, base_backoff, capped_backoff}

-- `Duration::mul_f64` by a factor in [0.9, 1.2), at the windows that `mark_failure` multiplies. These
-- are whole numbers of 30 seconds, so that rounding to nanoseconds stays within the bounds.
pub record IsJitter (scale : ℕ → ℕ) : Type 0 where
  pub above :
      (probe : Bool) (failures : ℕ)
      → 9 * base_backoff probe failures ≤ 10 * scale (base_backoff probe failures)
  pub below :
      (probe : Bool) (failures : ℕ)
      → 10 * scale (base_backoff probe failures) ≤ 12 * base_backoff probe failures

-- The powers that occur.
pow_small : (m : ℕ) → m ≤ 4 → (2 ^ m ≡ 1) ⊎ (2 ^ m ≡ 2) ⊎ (2 ^ m ≡ 4) ⊎ (2 ^ m ≡ 8) ⊎ (2 ^ m ≡ 16)
pow_small zero h = inl refl
pow_small (suc zero) h = inr (inl refl)
pow_small (suc (suc zero)) h = inr (inr (inl refl))
pow_small (suc (suc (suc zero))) h = inr (inr (inr (inl refl)))
pow_small (suc (suc (suc (suc zero)))) h = inr (inr (inr (inr refl)))
pow_small (suc (suc (suc (suc (suc m))))) h = absurd (omega arith)

base_backoff_bounds :
    (probe : Bool) (failures : ℕ)
    → (from_secs 30 ≤ base_backoff probe failures) × (base_backoff probe failures ≤ from_secs 480)
unfolding base_backoff
base_backoff_bounds probe failures = ground (arith, pow_small (min (failures - 3) 4))

-- Before jitter, from the third failure in a row to the seventh, the window of an endpoint that
-- is not half open doubles with each further failure.
pub base_backoff-doubles :
    (failures : ℕ)
    → 3 ≤ failures
    → failures < 7
    → base_backoff false (failures + 1) ≡ 2 * base_backoff false failures
unfolding base_backoff
base_backoff-doubles failures h k =
    let e : min (failures + 1 - 3) 4 ≡ suc (min (failures - 3) 4) = omega arith in
    rw e (omega (arith, pow-suc 2 (min (failures - 3) 4)))

-- Whatever the jitter, a cooling window lasts from 27 to 300 seconds.
pub capped_backoff_bounds :
    (scale : ℕ → ℕ) (probe : Bool) (failures : ℕ)
    → IsJitter scale
    → (from_secs 27 ≤ capped_backoff scale probe failures)
      × (capped_backoff scale probe failures ≤ from_secs 300)
unfolding capped_backoff
capped_backoff_bounds scale probe failures j =
    omega (arith, j.above probe failures, base_backoff_bounds probe failures)
