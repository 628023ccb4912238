-- ===== src/FanDriver/Frequency.antt =====
-- `temp_to_freq` and the timer's period.
use csel_workspace.Prelude.{
  ℕ, ◌+◌, ◌*◌, ◌/◌, ◌%◌, ◌^◌, ◌≤◌, ◌<◌, ◌≡◌, refl, ◌≢◌, ◌⊎◌, none, some, arith,
}
use csel_workspace.Prelude.Int.{ℤ, pos, ◌≤ℤ◌}
use csel_workspace.FanDriver.{temp_to_freq, period_ms}

-- A temperature below 35 degrees gives 2 Hz, one from 35 to 40 gives 10 Hz, and any above 40
-- gives 5 Hz: the value 20 of the last return is given at no temperature.
pub temp_to_freq_cases :
    (t : ℤ)
    → (t ≤ℤ pos 34999 → temp_to_freq t ≡ 2)
      × (pos 35000 ≤ℤ t → t ≤ℤ pos 40000 → temp_to_freq t ≡ 10)
      × (pos 40001 ≤ℤ t → temp_to_freq t ≡ 5)
      × (temp_to_freq t ≢ 20)
unfolding temp_to_freq
temp_to_freq_cases t =
    (λ h. ground arith, λ h k. ground arith, λ h. ground arith, λ h. ground arith)

-- The fan slows down as the CPU passes 40 degrees: any reading above gives a lower frequency than
-- any reading between 35 and 40 degrees.
pub temp_to_freq_drops :
    (a b : ℤ) → pos 35000 ≤ℤ a → a ≤ℤ pos 40000 → pos 40001 ≤ℤ b → temp_to_freq b < temp_to_freq a
unfolding temp_to_freq
temp_to_freq_drops a b h k l = ground arith

-- Between 1 and 500 Hz the period is defined, and two periods fit into a second, at most one
-- half-wave's worth of milliseconds short.
pub period_ms_bounds :
    (f : ℕ)
    → 1 ≤ f
    → f ≤ 500
    → (p : ℕ) × (period_ms f ≡ some p) × (1 ≤ p) × (2 * f * p ≤ 1000) × (1000 < 2 * f * (p + 1))
unfolding period_ms
period_ms_bounds f lo hi =
    let e : 2 * f % 2 ^ 32 ≡ 2 * f = omega arith in
    (1000 / (2 * f), ground arith, grind arith, grind arith, grind arith)

-- The division faults exactly at the multiples of 2^31.
pub period_ms-none :
    (f : ℕ)
    → f < 2 ^ 32
    → (period_ms f ≡ none → (f ≡ 0) ⊎ (f ≡ 2 ^ 31)) × (period_ms (2 ^ 31) ≡ none)
unfolding period_ms
period_ms-none f h = (λ e. ground arith, refl)
