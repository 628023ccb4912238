-- ===== src/Environment/Fibonacci.antt =====
-- src/01_environment/fibonacci/fibonacci.c and the traced copy src/01_environment/tracing/fibonacci.c.
-- A sum outside `long`, which C leaves undefined, is `none`.
pub mod Agree
pub mod Printed
mod Tests
use csel_workspace.Prelude.{
  ℕ, zero, suc, ◌+◌, ◌-◌, ◌*◌, ◌^◌, Bool, true, false, ◌&&◌, Option, none, some, List, [], ◌∷◌,
  ◌++◌, ltb, leb, if◌then◌else◌, length, ◌==◌,
}
use csel_workspace.Prelude.Int.{ℤ, pos, negsuc, ◌+ℤ◌, ◌-ℤ◌}
use csel_workspace.Prelude.Decimal.{print_int, atoi}
use csel_workspace.Prelude.Text.{codes}

-- A result of `long` arithmetic.
unfoldable pub long : ℤ → Option ℤ
long (pos n) = if ltb n (2 ^ 63) then some (pos n) else none
long (negsuc n) = if ltb n (2 ^ 63) then some (negsuc n) else none

unfoldable pub add_long : Option ℤ → Option ℤ → Option ℤ
add_long none b = none
add_long (some a) none = none
add_long (some a) (some b) = long (a +ℤ b)

-- `fibonacci_r` at a number that is not negative.
unfoldable pub fibonacci_from : ℕ → Option ℤ
fibonacci_from zero = some (pos 0)
fibonacci_from (suc zero) = some (pos 1)
fibonacci_from (suc (suc n)) = add_long (fibonacci_from (suc n)) (fibonacci_from n)

-- `fibonacci_r`, and `fibonacci` of the traced copy.
unfoldable pub fibonacci_r : ℤ → Option ℤ
fibonacci_r (negsuc n) = some (negsuc n)
fibonacci_r (pos n) = fibonacci_from n

-- The loop of `fibonacci_i`, with `n` rounds left.
unfoldable pub rounds : ℕ → ℤ → ℤ → Option ℤ
rounds zero f0 f1 = some f0
rounds (suc n) f0 f1 = elim (long (f1 +ℤ f0)) [
  | none ↦ none
  | some sum ↦ elim (long (sum -ℤ f0)) [ none ↦ none | some f0' ↦ rounds n f0' sum ]
]

unfoldable pub fibonacci_i : ℤ → Option ℤ
fibonacci_i (negsuc n) = some (pos 0)
fibonacci_i (pos n) = rounds n (pos 0) (pos 1)

-- `n` of `main`, from the arguments behind the program's name.
unfoldable pub argument : List (List ℕ) → ℤ
argument [] = pos 0
argument (a ∷ []) = atoi a
argument (a ∷ b ∷ args) = pos 0

-- `i < n-1 ? ", " : ""`, with `k` rounds behind this one.
unfoldable pub separator : ℕ → List ℕ
separator zero = []
separator (suc k) = codes ", "

-- The loop of `main` from `i` on, with `k` rounds left: the numbers, with `", "` between two.
unfoldable pub print_numbers : ℕ → ℕ → Option (List ℕ)
print_numbers i zero = some []
print_numbers i (suc k) = elim (fibonacci_i (pos i)) [
  | none ↦ none
  | some f ↦ elim (print_numbers (i + 1) k) [
    | none ↦ none
    | some rest ↦ some (print_int f ++ (separator k ++ rest))
  ]
]

-- How many rounds `for (i = 0; i < n; i++)` makes.
unfoldable pub rounds_below : ℤ → ℕ
rounds_below (pos n) = n
rounds_below (negsuc n) = 0

-- What both programs print of `n` and the numbers.
unfoldable pub report : ℤ → Option (List ℕ) → Option (List ℕ)
report n none = none
report n (some numbers) = some (
    codes "The first " ++ print_int n ++ codes " Fibonacci numbers are:\n" ++ numbers ++ codes "\n")

-- What `main` prints behind its first line.
unfoldable pub main : List (List ℕ) → Option (List ℕ)
main args = report (argument args) (print_numbers 0 (rounds_below (argument args)))

-- The loop of the traced `main`, which goes to `n` included and writes `", "` behind each number.
unfoldable pub print_each : ℕ → ℕ → Option (List ℕ)
print_each i zero = some []
print_each i (suc k) = elim (fibonacci_r (pos i)) [
  | none ↦ none
  | some f ↦ elim (print_each (i + 1) k) [
    | none ↦ none
    | some rest ↦ some (print_int f ++ (codes ", " ++ rest))
  ]
]

-- How many rounds `for (i = 0; i <= n; i++)` makes.
unfoldable pub rounds_to : ℤ → ℕ
rounds_to (pos n) = n + 1
rounds_to (negsuc n) = 0

-- What the traced `main` prints without `DEBUG`.
unfoldable pub traced_main : List (List ℕ) → Option (List ℕ)
traced_main args = report (argument args) (print_each 0 (rounds_to (argument args)))
