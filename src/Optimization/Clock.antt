-- ===== src/Optimization/Clock.antt =====
-- src/06_optimization/clock/clock.c: how long two readings of a clock lie apart.
pub mod Elapsed
pub mod Tests
use csel_workspace.Prelude.{
  ℕ, zero, suc, ◌+◌, ◌*◌, ◌/◌, ◌%◌, List, [], ◌∷◌, ◌++◌, ltb, if◌then◌else◌,
}
use csel_workspace.Prelude.Int.{ℤ, pos, negsuc, ◌+ℤ◌, ◌-ℤ◌, ◌*ℤ◌}
use csel_workspace.Prelude.Machine.{to_int}
use csel_workspace.Prelude.Text.{codes}
use csel_workspace.Prelude.Decimal.{print_nat, print_int, atoi}

-- `struct timespec`, of a clock that does not stand below 0.
pub record Timespec : Type 0 where
  pub tv_sec : ℕ
  pub tv_nsec : ℕ

-- `t` in `measure`, as an integer: the sums fit `long long` for a clock of up to 292 years.
unfoldable pub elapsed : Timespec → Timespec → ℤ
elapsed start stop =
    (pos stop.tv_nsec -ℤ pos start.tv_nsec)
    +ℤ (pos stop.tv_sec -ℤ pos start.tv_sec) *ℤ pos 1000000000

-- The rounds of the loop of `measure`, where `clock k` is what call `k` of `clock_gettime` brings.
unfoldable pub rounds : (ℕ → Timespec) → ℕ → ℕ → List (List ℕ)
rounds clock k zero = []
rounds clock k (suc n) =
    (print_int (elapsed (clock k) (clock (suc k))) ++ (10 ∷ [])) ∷ rounds clock (suc (suc k)) n

-- The lines that `measure` prints; it reads the clock twice before the loop.
unfoldable pub measure : (ℕ → Timespec) → ℤ → List (List ℕ)
measure clock (pos samples) = rounds clock 2 samples
measure clock (negsuc n) = []

-- `%03ld` below 1000.
unfoldable pub print_three : ℕ → List ℕ
print_three n =
    if ltb n 10
    then b'0' ∷ b'0' ∷ print_nat n
    else if ltb n 100
    then b'0' ∷ print_nat n
    else print_nat n

-- `t` in `main`, of what `clock_getres` brings.
unfoldable pub resolution : Timespec → ℕ
resolution res = res.tv_sec * 1000000000 + res.tv_nsec

unfoldable pub time_line : ℕ → List ℕ
time_line t =
    codes "time="
    ++ (print_nat (t / 1000000)
        ++ (b'\'' ∷ print_three (t / 1000 % 1000)
            ++ (b'\'' ∷ print_three (t % 1000) ++ codes " ns\n")))

-- The argument, as an `int`: `args` are those behind the program's name.
unfoldable pub samples : List (List ℕ) → ℤ
samples (arg ∷ []) = to_int (atoi arg)
samples _ = pos 1000

-- The lines that `main` prints, for the `CLOCKS_PER_SEC` of the system.
unfoldable pub main : ℕ → Timespec → (ℕ → Timespec) → List (List ℕ) → List (List ℕ)
main clocks_per_sec res clock args =
    (codes "clocks_per_sec=" ++ (print_nat clocks_per_sec ++ (10 ∷ [])))
    ∷ time_line (resolution res)
    ∷ measure clock (samples args)
