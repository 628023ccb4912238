-- ===== src/Optimization/Clock/Elapsed.antt =====
-- What the printed numbers are of the readings of a clock that does not go back.
use csel_workspace.Prelude.{
  ℕ, zero, suc, ◌+◌, ◌-◌, ◌*◌, ◌/◌, ◌%◌, ◌≤◌, ◌<◌, ◌≡◌, refl, List, [], ◌∷◌, ◌++◌, length, get_or,
  arith, ap, ◌∙◌,
}
use csel_workspace.Prelude.Int.{pos, ◌+ℤ◌, ◌-ℤ◌, ◌*ℤ◌}
use csel_workspace.Prelude.Decimal.{print_nat}
use csel_workspace.Prelude.Decimal.RoundTrip.{print_int_pos}
use csel_workspace.Optimization.Clock.{Timespec, elapsed, rounds, measure}

-- A number of nanoseconds as a `struct timespec`.
abbrev pub timespec : ℕ → Timespec
timespec t = record { tv_sec = t / 1000000000; tv_nsec = t % 1000000000 }

elapsed_lem : (a b : ℕ) → a ≤ b → elapsed (timespec a) (timespec b) ≡ pos (b - a)
unfolding elapsed ◌+ℤ◌ ◌-ℤ◌ ◌*ℤ◌
elapsed_lem a b h = ground (arith, h)

length-rounds : (clock : ℕ → Timespec) (k n : ℕ) → length (rounds clock k n) ≡ n
unfolding rounds
length-rounds clock k zero = refl
length-rounds clock k (suc n) = ap suc (length-rounds clock (suc (suc k)) n)

-- The line for the readings `a` and `b`.
abbrev pub difference_line : ℕ → ℕ → List ℕ
difference_line a b = print_nat (b - a) ++ (10 ∷ [])

get_or-rounds :
    (time : ℕ → ℕ) (k n i : ℕ)
    → ((j : ℕ) → time j ≤ time (suc j))
    → i < n
    → get_or (rounds (λ j. timespec (time j)) k n) i []
      ≡ difference_line (time (k + 2 * i)) (time (suc (k + 2 * i)))
unfolding rounds
get_or-rounds time k zero i up h = absurd (omega arith)
get_or-rounds time k (suc n) zero up h =
    rw (elapsed_lem (time k) (time (suc k)) (up k), print_int_pos (time (suc k) - time k))
      (ap (λ j. difference_line (time j) (time (suc j))) (omega arith))
get_or-rounds time k (suc n) (suc i) up h =
    get_or-rounds time (suc (suc k)) n i up (omega (arith, h))
    ∙ ap (λ j. difference_line (time j) (time (suc j))) (omega arith)

-- On a clock that does not go back, where call `j` reads `time j` nanoseconds, `measure` prints one
-- line for each of the samples, and line `i` has the nanoseconds that lie between the two readings
-- of its round.
pub measure_differences :
    (time : ℕ → ℕ) (n i : ℕ)
    → ((j : ℕ) → time j ≤ time (suc j))
    → i < n
    → let lines = measure (λ j. timespec (time j)) (pos n) in
      (length lines ≡ n)
      × (get_or lines i [] ≡ difference_line (time (2 * i + 2)) (time (2 * i + 3)))
unfolding measure
measure_differences time n i up h = (
  length-rounds (λ j. timespec (time j)) 2 n,
  get_or-rounds time 2 n i up h
      ∙ ap (λ j. difference_line (time j) (time (suc j))) (omega arith)
      ∙ ap (λ j. difference_line (time (2 * i + 2)) (time j)) (omega arith),
)
