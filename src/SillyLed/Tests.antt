-- ===== src/SillyLed/Tests.antt =====
-- Runs of silly_led, and examples of its theorem.
use csel_workspace.Prelude.{ℕ, ◌*◌, ◌≡◌, refl, none, some, List, [], ◌∷◌, arith}
use csel_workspace.Prelude.Int.{pos, ◌*ℤ◌}
use csel_workspace.Prelude.Text.{codes}
use csel_workspace.Prelude.Machine.{to_int}
use csel_workspace.Prelude.Decimal.{atoi, is_digit}
use csel_workspace.SillyLed.{Timespec, loop, phase_on, phase_off, period_ns}
use csel_workspace.SillyLed.Duty.{loop_duty, Blinks, last_time}

test_period : period_ns none ≡ pos 1000000000
unfolding period_ns ◌*ℤ◌
test_period = refl

test_argument : period_ns (some (codes "50")) ≡ pos 50000000
unfolding period_ns atoi is_digit to_int ◌*ℤ◌
test_argument = refl

abbrev at_ms : ℕ → Timespec
at_ms ms = record { tv_sec = 7; tv_nsec = ms * 1000000 }

-- A period of 100 ms, seen every 30 ms.
abbrev times : List Timespec
times = at_ms 30 ∷ at_ms 60 ∷ at_ms 90 ∷ at_ms 120 ∷ at_ms 150 ∷ []

loop_duty_example :
    let period = pos 100 *ℤ pos 1000000 in
    Blinks
      (100 * 20000)
      (100 * 980000)
      40000000
      (last_time (at_ms 0) times)
      (at_ms 0)
      0
      (loop (phase_on period) (phase_off period) times (record { t1 = at_ms 0; k = 0 })).1
loop_duty_example = loop_duty 100 40000000 (at_ms 0) times (omega arith) (
  omega arith,
  omega arith,
  (
    omega arith,
    omega arith,
    (omega arith, omega arith, (omega arith, omega arith, (omega arith, omega arith, tt))),
  ),
)
