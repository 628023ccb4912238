-- ===== src/Environment/Fibonacci/Tests.antt =====
-- Runs of the Fibonacci programs, and examples of their theorems.
use csel_workspace.Prelude.{◌≡◌, refl, ◌++◌, none, some, [], ◌∷◌, map, arith}
use csel_workspace.Prelude.Int.{pos, negsuc}
use csel_workspace.Prelude.Decimal.{print_nat}
use csel_workspace.Prelude.Text.{codes}
use csel_workspace.Environment.Fibonacci.{fibonacci_r, fibonacci_i, main, traced_main}
use csel_workspace.Environment.Fibonacci.Agree.{fib, fibonacci_agree}
use csel_workspace.Environment.Fibonacci.Printed.{numbers, join, each, main-prints}

-- A negative number comes back from the one and is 0 for the other.
test_negative : (fibonacci_r (negsuc 4) ≡ some (negsuc 4)) × (fibonacci_i (negsuc 4) ≡ some (pos 0))
unfolding fibonacci_r fibonacci_i
test_negative = (refl, refl)

-- The two functions differ at 92.
fibonacci_agree_example :
    (fibonacci_r (pos 92) ≡ some (pos (fib 92))) × (fibonacci_i (pos 92) ≡ none)
fibonacci_agree_example = fibonacci_agree 92

test_main-prints :
    (main (print_nat 4 ∷ [])
      ≡ some (
          codes "The first "
          ++ print_nat 4
          ++ codes " Fibonacci numbers are:\n"
          ++ join (codes ", ") (map print_nat (numbers 0 4))
          ++ codes "\n"))
    × (traced_main (print_nat 4 ∷ [])
        ≡ some (
            codes "The first "
            ++ print_nat 4
            ++ codes " Fibonacci numbers are:\n"
            ++ each (codes ", ") (map print_nat (numbers 0 5))
            ++ codes "\n"))
test_main-prints = main-prints 4 (omega arith)
