-- ===== src/Environment/Fibonacci/Printed.antt =====
-- What the two `main` functions print for a number on the command line.
use csel_workspace.Prelude.{
  ℕ, zero, suc, ◌+◌, ◌≤◌, ◌≡◌, refl, sym, ap, ◌∙◌, some, List, [], ◌∷◌, ◌++◌, map, arith,
}
use mathlib.Core.List.{append-nil}
use csel_workspace.Prelude.Int.{pos}
use csel_workspace.Prelude.Decimal.{print_nat, print_int, atoi}
use csel_workspace.Prelude.Decimal.RoundTrip.{atoi-print_nat}
use csel_workspace.Prelude.Text.{codes}
use csel_workspace.Environment.Fibonacci.{
  fibonacci_r, fibonacci_i, separator, argument, report, print_numbers, print_each, rounds_below,
  rounds_to, main, traced_main,
}
use csel_workspace.Environment.Fibonacci.Agree.{fib, fibonacci_agree}

-- `k` Fibonacci numbers from the `i`-th on.
abbrev pub numbers : ℕ → ℕ → List ℕ
numbers i zero = []
numbers i (suc k) = fib i ∷ numbers (i + 1) k

-- Texts with a separator between two.
abbrev pub join : List ℕ → List (List ℕ) → List ℕ
join sep [] = []
join sep (t ∷ []) = t
join sep (t ∷ u ∷ ts) = t ++ (sep ++ join sep (u ∷ ts))

-- Texts with an end behind each.
abbrev pub each : List ℕ → List (List ℕ) → List ℕ
each end [] = []
each end (t ∷ ts) = t ++ (end ++ each end ts)

within_r : (i : ℕ) → i ≤ 92 → fibonacci_r (pos i) ≡ some (pos (fib i))
within_r i h = ground (arith, h, (fibonacci_agree i).0)

within_i : (i : ℕ) → i ≤ 91 → fibonacci_i (pos i) ≡ some (pos (fib i))
within_i i h = ground (arith, h, (fibonacci_agree i).1)

print_numbers_lem :
    (i k : ℕ)
    → i + k ≤ 92
    → print_numbers i k ≡ some (join (codes ", ") (map print_nat (numbers i k)))
unfolding print_numbers separator print_int
print_numbers_lem i zero h = refl
print_numbers_lem i (suc zero) h =
    rw (print_numbers, within_i i (omega (arith, h))) (ap some (append-nil (print_nat (fib i))))
print_numbers_lem i (suc (suc k)) h =
    rw
      (
        print_numbers,
        within_i i (omega (arith, h)),
        print_numbers_lem (i + 1) (suc k) (omega (arith, h)),
      )
      refl

print_each_lem :
    (i k : ℕ) → i + k ≤ 93 → print_each i k ≡ some (each (codes ", ") (map print_nat (numbers i k)))
unfolding print_each print_int
print_each_lem i zero h = refl
print_each_lem i (suc k) h =
    rw (print_each, within_r i (omega (arith, h)), print_each_lem (i + 1) k (omega (arith, h))) refl

argument_lem : (n : ℕ) → argument (print_nat n ∷ []) ≡ pos n
unfolding argument
argument_lem n = ap atoi (sym (append-nil (print_nat n))) ∙ atoi-print_nat n [] refl

-- With a number `n` up to 92 on the command line: `main` prints the first `n` Fibonacci numbers with
-- a comma between two. The traced `main`, which says the same of what it prints, prints `n + 1` of
-- them, with a comma behind each.
pub main-prints :
    (n : ℕ)
    → n ≤ 92
    → (main (print_nat n ∷ [])
        ≡ some (
            codes "The first "
            ++ print_nat n
            ++ codes " Fibonacci numbers are:\n"
            ++ join (codes ", ") (map print_nat (numbers 0 n))
            ++ codes "\n"))
      × (traced_main (print_nat n ∷ [])
          ≡ some (
              codes "The first "
              ++ print_nat n
              ++ codes " Fibonacci numbers are:\n"
              ++ each (codes ", ") (map print_nat (numbers 0 (n + 1)))
              ++ codes "\n"))
unfolding main traced_main report print_int rounds_below rounds_to
main-prints n h = (
  ap (λ z. report z (print_numbers 0 (rounds_below z))) (argument_lem n)
      ∙ ap (report (pos n)) (print_numbers_lem 0 n (omega (arith, h))),
  ap (λ z. report z (print_each 0 (rounds_to z))) (argument_lem n)
      ∙ ap (report (pos n)) (print_each_lem 0 (n + 1) (omega (arith, h))),
)
