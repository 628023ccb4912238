-- ===== src/ProcDriver/Tests.antt =====
-- Runs of the procfs module, and an example of its theorem.
use csel_workspace.Prelude.{◌≡◌, refl, false, some, ◌++◌, arith}
use csel_workspace.Prelude.Int.{pos, negsuc}
use csel_workspace.Prelude.Decimal.{print_int, print_nat, print_from, parse_digits, is_digit}
use csel_workspace.Prelude.Machine.{simple_strtol, to_int, to_long}
use csel_workspace.Prelude.Text.{codes}
use csel_workspace.ProcDriver.{skeleton_read_val, skeleton_write_val, initial_val}
use csel_workspace.ProcDriver.Values.{write_val-read_val}

-- Digits that the stack held are taken into a number without a newline.
test_stack : (skeleton_write_val initial_val (codes "x777\n") (codes "5") false).0 ≡ pos 5777
unfolding skeleton_write_val simple_strtol to_int to_long parse_digits is_digit
test_stack = refl

write_val-read_val_example :
    (skeleton_write_val (pos 55) (codes "999999") (print_int (negsuc 41) ++ codes "\n") false
      ≡ (negsuc 41, pos 4))
    × (skeleton_read_val (negsuc 41) 2 1 false ≡ some (pos 2, codes "-4", 3))
unfolding print_int print_nat print_from
write_val-read_val_example =
    write_val-read_val (negsuc 41) (pos 55) (codes "999999") 2 1 (omega arith, omega arith)
      (omega arith)
