-- ===== src/Prelude/Machine.antt =====
-- The machine integers of the sources: `int` of 32 bits, `long` and `size_t` of 64, and the kernel's
-- conversion of a text to a `long`.
use csel_workspace.Prelude.{
  ℕ, suc, ◌-◌, ◌%◌, ◌^◌, ◌≤◌, ◌≡◌, ap, true, List, [], ◌∷◌, ◌++◌, ltb, ◌==◌, if◌then◌else◌, arith,
}
use csel_workspace.Prelude.Int.{ℤ, pos, negsuc, minus, ◌≤ℤ◌, ◌-ℤ◌}
use csel_workspace.Prelude.Decimal.{print_int, is_digit, parse_digits}
use csel_workspace.Prelude.Decimal.RoundTrip.{ends_number, print_nat_digits}

-- A number stored in an `int` of 32 and in a `long` of 64 bits.
unfoldable pub to_int : ℤ → ℤ
to_int (pos n) = let m = n % 2 ^ 32 in if ltb m (2 ^ 31) then pos m else negsuc (2 ^ 32 - 1 - m)
to_int (negsuc n) = let m = n % 2 ^ 32 in if ltb m (2 ^ 31) then negsuc m else pos (2 ^ 32 - 1 - m)

unfoldable pub to_long : ℤ → ℤ
to_long (pos n) = let m = n % 2 ^ 64 in if ltb m (2 ^ 63) then pos m else negsuc (2 ^ 64 - 1 - m)
to_long (negsuc n) = let m = n % 2 ^ 64 in if ltb m (2 ^ 63) then negsuc m else pos (2 ^ 64 - 1 - m)

-- `simple_strtol(buf, 0, 10)`: an optional minus and digits, with no blanks before them.
unfoldable pub simple_strtol : List ℕ → ℤ
simple_strtol [] = pos 0
simple_strtol (c ∷ cs) =
    to_long (if c == b'-' then minus (parse_digits 0 cs) else pos (parse_digits 0 (c ∷ cs)))

-- A signed number where the code compares it with a `size_t` of 64 bits, or assigns it to one.
unfoldable pub to_size : ℤ → ℕ
to_size (pos n) = n
to_size (negsuc n) = 2 ^ 64 - 1 - n

-- The numbers of an `int` and of a `long`.
abbrev pub IsInt : ℤ → Type 0
IsInt z = (minus (2 ^ 31) ≤ℤ z) × (z ≤ℤ pos (2 ^ 31 - 1))

abbrev pub IsLong : ℤ → Type 0
IsLong z = (minus (2 ^ 63) ≤ℤ z) × (z ≤ℤ pos (2 ^ 63 - 1))

pub to_int_same : (z : ℤ) → IsInt z → to_int z ≡ z
unfolding to_int
to_int_same (pos n) (l, h) = ground (arith, h)
to_int_same (negsuc n) (l, h) = ground (arith, l)

pub to_long_same : (z : ℤ) → IsLong z → to_long z ≡ z
unfolding to_long
to_long_same (pos n) (l, h) = ground (arith, h)
to_long_same (negsuc n) (l, h) = ground (arith, l)

pub int-IsLong : (z : ℤ) → IsInt z → IsLong z
int-IsLong z (l, h) = (omega (arith, l), omega (arith, h))

pub to_size-difference : (a b : ℕ) → b ≤ a → to_size (pos a -ℤ pos b) ≡ a - b
unfolding to_size ◌-ℤ◌
to_size-difference a b h = ground (arith, h)

pub simple_strtol-print_int :
    (z : ℤ) (rest : List ℕ)
    → ends_number rest ≡ true
    → simple_strtol (print_int z ++ rest) ≡ to_long z
unfolding simple_strtol print_int is_digit
simple_strtol-print_int (pos n) rest h =
    let (c, cs, e, d, p) = print_nat_digits n rest h in rw e (ground (arith, d, p))
simple_strtol-print_int (negsuc n) rest h =
    let (c, cs, e, d, p) = print_nat_digits (suc n) rest h in rw e (ap (λ m. to_long (minus m)) p)
