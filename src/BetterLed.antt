-- ===== src/BetterLed.antt =====
-- src/04_file_systems/better_led/better_led.c: a LED that blinks with a period set by three buttons.
pub mod Startup
pub mod Periods
mod Tests
use csel_workspace.Prelude.{
  ℕ, zero, suc, ◌+◌, ◌-◌, ◌*◌, ◌/◌, ◌%◌, Bool, true, false, not, List, [], ◌∷◌, ◌++◌, ◌==◌, ltb,
  if◌then◌else◌,
}

abbrev pub min_blink_period_ms : ℕ
min_blink_period_ms = 50

abbrev pub max_blink_period_ms : ℕ
max_blink_period_ms = 500

abbrev pub blink_step_ms : ℕ
blink_step_ms = 50

-- `struct itimerspec` with the same value and interval: seconds and nanoseconds.
pub record TimerSpec : Type 0 where
  pub value_sec : ℕ
  pub value_nsec : ℕ
  pub interval_sec : ℕ
  pub interval_nsec : ℕ

pub data Call : Type 0 where
  timerfd_settime : TimerSpec → Call
  pwrite : List ℕ → Call

-- The shared period and the LED thread's state.
pub record State : Type 0 where
  pub blink_frequ_ms : ℕ
  pub led_state : Bool

-- An event of the buttons, by the index that main registered. Below the step the C difference is
-- negative, and below the minimum as the difference here is.
unfoldable pub button_event : ℕ → ℕ → ℕ
button_event index p =
    if index == 0
    then (if ltb (p - blink_step_ms) min_blink_period_ms
        then min_blink_period_ms
        else p - blink_step_ms)
    else if index == 1
    then max_blink_period_ms
    else if index == 2
    then (if ltb max_blink_period_ms (p + blink_step_ms)
        then max_blink_period_ms
        else p + blink_step_ms)
    else p

unfoldable pub set_timer_period : ℕ → Call
set_timer_period p =
    let sec = p / 1000 in
    let nsec = (p % 1000) * 1000000 in
    timerfd_settime
      (record { value_sec = sec; value_nsec = nsec; interval_sec = sec; interval_nsec = nsec })

unfoldable pub set_led_state : Bool → Call
set_led_state state = pwrite (if state then b'1' ∷ [] else b'0' ∷ [])

-- The two threads, one section under the lock at a time: the handling of a button's event, the
-- setting of the timer at the head of the LED thread's loop, and the rest of that loop.
pub data Step : Type 0 where
  pressed : ℕ → Step
  set_timer expired : Step

unfoldable pub step : Step → State → State × List Call
step (pressed index) s = (record s { blink_frequ_ms = button_event index s.blink_frequ_ms }, [])
step set_timer s = (s, set_timer_period s.blink_frequ_ms ∷ [])
step expired s = let led = not s.led_state in (record s { led_state = led }, set_led_state led ∷ [])

unfoldable pub run : List Step → State → State × List Call
run [] s = (s, [])
run (x ∷ xs) s = let (s', calls) = step x s in let (last, more) = run xs s' in (last, calls ++ more)

-- The state with which the threads start.
abbrev pub initial : State
initial = record { blink_frequ_ms = max_blink_period_ms; led_state = false }
