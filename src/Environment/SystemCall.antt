-- ===== src/Environment/SystemCall.antt =====
-- src/01_environment/system_calls/syscall.c: the program that prints the temperature of the board.
pub mod Degrees
pub mod Tests
use csel_workspace.Prelude.{
  ℕ, suc, ◌-◌, ◌/◌, ◌%◌, Bool, Option, none, some, List, [], ◌∷◌, ◌++◌, length, take, replicate,
  ltb, if◌then◌else◌,
}
use csel_workspace.Prelude.Int.{ℤ, pos, negsuc, minus}
use csel_workspace.Prelude.Text.{codes}
use csel_workspace.Prelude.Machine.{to_int}
use csel_workspace.Prelude.Decimal.{print_nat, print_int, atoi}

-- C's `/` and `%` on `int`: both round towards 0, and the remainder has the dividend's sign.
unfoldable pub quot : ℤ → ℕ → ℤ
quot (pos n) k = pos (n / k)
quot (negsuc n) k = minus (suc n / k)

unfoldable pub rem : ℤ → ℕ → ℤ
rem (pos n) k = pos (n % k)
rem (negsuc n) k = minus (suc n % k)

-- `%02d`: one digit alone gets a 0 in front; a sign takes the place of the 0.
unfoldable pub print_two : ℤ → List ℕ
print_two z = if ltb (length (print_int z)) 2 then b'0' ∷ print_int z else print_int z

-- The temperature after the read: `opened` tells whether `open` succeeds;
-- `bytes` is what `read` returns, none for an error. `val` has 50 bytes, and `past` lies behind it.
unfoldable pub temperature : Bool → Option (List ℕ) → List ℕ → ℤ
temperature opened none past = pos 99000
temperature opened (some []) past = pos 99000
temperature opened (some (b ∷ bs)) past =
    if opened
    then to_int (atoi (take 50 (b ∷ bs) ++ (replicate (50 - length (b ∷ bs)) 0 ++ past)))
    else pos 99000

abbrev pub label : List ℕ
label = codes "current temperature: "

abbrev pub unit_text : List ℕ
unit_text = codes " degree Celcius\n"

-- What `printf` writes for `temp`.
unfoldable pub line : ℤ → List ℕ
line temp =
    label
    ++ (print_int (quot temp 1000) ++ (b'.' ∷ print_two (rem (quot temp 10) 100) ++ unit_text))

unfoldable pub main : Bool → Option (List ℕ) → List ℕ → List ℕ
main opened bytes past = line (temperature opened bytes past)
