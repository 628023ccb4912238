-- ===== src/Optimization/Clock/Tests.antt =====
-- Runs of the clock program, and an example of what holds of it.
use csel_workspace.Prelude.{ℕ, ◌+◌, ◌*◌, ◌≡◌, refl, [], ◌∷◌, length, get_or, arith}
use csel_workspace.Prelude.Int.{pos, ◌+ℤ◌, ◌-ℤ◌, ◌*ℤ◌}
use csel_workspace.Prelude.Machine.{to_int}
use csel_workspace.Prelude.Text.{codes}
use csel_workspace.Prelude.Decimal.{print_nat, print_int, atoi}
use csel_workspace.Optimization.Clock.{
  elapsed, rounds, measure, print_three, resolution, time_line, samples, main,
}
use csel_workspace.Optimization.Clock.Elapsed.{timespec, difference_line, measure_differences}

-- A clock that goes on by 700 000 000 nanoseconds from call to call.
abbrev time : ℕ → ℕ
time j = 700000000 * j

test_main :
    main 1000000 (timespec 1) (λ j. timespec (time j)) (codes "2" ∷ [])
    ≡ codes "clocks_per_sec=1000000\n"
      ∷ codes "time=0'000'001 ns\n"
      ∷ codes "700000000\n"
      ∷ codes "700000000\n"
      ∷ []
unfolding main samples to_int atoi time_line resolution print_three print_nat print_int measure
    rounds elapsed ◌+ℤ◌ ◌-ℤ◌ ◌*ℤ◌
test_main = refl

-- A number of samples below 0 measures nothing.
test_negative : measure (λ j. timespec (time j)) (samples (codes "-3" ∷ [])) ≡ []
unfolding measure samples to_int atoi
test_negative = refl

measure_differences_example :
    let lines = measure (λ j. timespec (time j)) (pos 3) in
    (length lines ≡ 3) × (get_or lines 1 [] ≡ difference_line (time (2 * 1 + 2)) (time (2 * 1 + 3)))
measure_differences_example = measure_differences time 3 1 (λ j. omega arith) (omega arith)
