-- ===== src/BetterLed/Periods.antt =====
-- The period, and what the timer is set to, stay in the bounds of the period.
use csel_workspace.Prelude.{ℕ, ◌*◌, ◌/◌, ◌%◌, ◌≤◌, ◌≡◌, refl, not, List, [], ◌∷◌, arith}
use csel_workspace.BetterLed.{
  TimerSpec, Call, timerfd_settime, pwrite, State, button_event, set_timer_period, set_led_state,
  Step, pressed, set_timer, expired, step, run,
}

-- A period that the buttons can reach.
abbrev pub IsPeriod : ℕ → Type 0
IsPeriod p = (50 ≤ p) × (p ≤ 500) × (p % 50 ≡ 0)

button_event-IsPeriod : (index p : ℕ) → IsPeriod p → IsPeriod (button_event index p)
unfolding button_event
button_event-IsPeriod index p (lo, hi, m) = (ground arith, ground arith, ground arith)

-- The timer is armed, and its nanoseconds are in the range that `timerfd_settime` takes.
abbrev pub IsArmed : TimerSpec → Type 0
IsArmed t =
    (t.value_sec ≡ 0)
    × (50000000 ≤ t.value_nsec)
    × (t.value_nsec ≤ 500000000)
    × (t.interval_sec ≡ t.value_sec)
    × (t.interval_nsec ≡ t.value_nsec)

timer-IsArmed :
    (p : ℕ)
    → IsPeriod p
    → (p / 1000 ≡ 0)
      × (50000000 ≤ p % 1000 * 1000000)
      × (p % 1000 * 1000000 ≤ 500000000)
      × (p / 1000 ≡ p / 1000)
      × (p % 1000 * 1000000 ≡ p % 1000 * 1000000)
timer-IsArmed p (lo, hi, m) = (omega arith, omega arith, omega arith, refl, refl)

-- All timers of a list of calls are armed.
abbrev pub AllArmed : List Call → Type 0
AllArmed [] = Unit
AllArmed (timerfd_settime t ∷ calls) = IsArmed t × AllArmed calls
AllArmed (pwrite bytes ∷ calls) = AllArmed calls

-- From a period of 50 to 500 ms in steps of 50, and whatever the buttons and the LED thread do in
-- whatever order: the period stays such a one, and every timer that is set on the way is armed with
-- a valid time from 50 to 500 ms.
pub run-IsPeriod :
    (xs : List Step) (s : State)
    → IsPeriod s.blink_frequ_ms
    → IsPeriod (run xs s).0.blink_frequ_ms × AllArmed (run xs s).1
unfolding run step set_timer_period set_led_state
run-IsPeriod [] s h = (h, tt)
run-IsPeriod (pressed index ∷ xs) s h =
    run-IsPeriod xs (record s { blink_frequ_ms = button_event index s.blink_frequ_ms })
      (button_event-IsPeriod index s.blink_frequ_ms h)
run-IsPeriod (set_timer ∷ xs) s h =
    let rest = run-IsPeriod xs s h in (rest.0, (timer-IsArmed s.blink_frequ_ms h, rest.1))
run-IsPeriod (expired ∷ xs) s h = run-IsPeriod xs (record s { led_state = not s.led_state }) h
