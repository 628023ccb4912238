-- ===== src/Environment/SystemCall/Tests.antt =====
-- Runs of the temperature program, and an example of its theorem.
use csel_workspace.Prelude.{◌≡◌, refl, true, false, none, some, [], ◌++◌, arith}
use csel_workspace.Prelude.Int.{negsuc}
use csel_workspace.Prelude.Text.{codes}
use csel_workspace.Prelude.Machine.{to_int}
use csel_workspace.Prelude.Decimal.{print_int, print_nat, atoi, is_digit}
use csel_workspace.Environment.SystemCall.{
  quot, rem, print_two, temperature, label, unit_text, line, main,
}
use csel_workspace.Environment.SystemCall.Degrees.{thermal_text, degrees, main_prints}

-- One and a half degrees below 0.
test_below_zero : degrees (negsuc 1499) ≡ codes "-1.-50"
unfolding print_int print_nat
test_below_zero = refl

test_warm :
    main true (some (codes "54321\n")) [] ≡ codes "current temperature: 54.32 degree Celcius\n"
unfolding main temperature line quot rem print_two print_int print_nat atoi is_digit to_int
test_warm = refl

-- A file with no number in it reads as 0.
test_no_number :
    main true (some (codes "hot")) [] ≡ codes "current temperature: 0.00 degree Celcius\n"
unfolding main temperature line quot rem print_two print_int print_nat atoi is_digit to_int
test_no_number = refl

main_prints_example :
    (main true (some (thermal_text (negsuc 1499))) []
      ≡ label ++ (degrees (negsuc 1499) ++ unit_text))
    × (main false none [] ≡ label ++ (codes "99.00" ++ unit_text))
    × (main true none [] ≡ label ++ (codes "99.00" ++ unit_text))
    × (main true (some []) [] ≡ label ++ (codes "99.00" ++ unit_text))
main_prints_example = main_prints (negsuc 1499) none [] (omega arith, omega arith)
