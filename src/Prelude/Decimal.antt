-- ===== src/Prelude/Decimal.antt =====
-- `printf` of a decimal number and `atoi`, over the bytes of a text.
pub mod RoundTrip
use csel_workspace.Prelude.{
  ℕ, zero, suc, ◌+◌, ◌-◌, ◌*◌, ◌/◌, ◌%◌, Bool, ◌&&◌, ◌||◌, List, [], ◌∷◌, leb, ◌==◌, if◌then◌else◌,
}
use csel_workspace.Prelude.Int.{ℤ, pos, negsuc, minus}

-- The digits of `n`, most significant first, in front of `rest`; each round drops one digit.
unfoldable pub print_from : ℕ → ℕ → List ℕ → List ℕ
print_from zero n rest = rest
print_from (suc f) n rest =
    let more = print_from f (n / 10) ((48 + n % 10) ∷ rest) in
    if n / 10 == 0 then (48 + n % 10) ∷ rest else more

-- `%d` and `%u` at a number that is not negative.
unfoldable pub print_nat : ℕ → List ℕ
unfolding print_from
print_nat n = print_from (suc n) n []

-- `%d`.
unfoldable pub print_int : ℤ → List ℕ
unfolding print_nat
print_int (pos n) = print_nat n
print_int (negsuc n) = b'-' ∷ print_nat (suc n)

unfoldable pub is_digit : ℕ → Bool
is_digit c = leb 48 c && leb c 57

-- The digits at the head of a text, as a number over `acc`.
unfoldable pub parse_digits : ℕ → List ℕ → ℕ
unfolding is_digit
parse_digits acc [] = acc
parse_digits acc (c ∷ cs) =
    let rest = parse_digits (acc * 10 + (c - 48)) cs in if is_digit c then rest else acc

pub is_space : ℕ → Bool
is_space c = c == 32 || (leb 9 c && leb c 13)

parse_signed : List ℕ → ℤ
unfolding parse_digits
parse_signed [] = pos 0
parse_signed (c ∷ cs) =
    if c == b'-'
    then minus (parse_digits 0 cs)
    else if c == b'+'
    then pos (parse_digits 0 cs)
    else pos (parse_digits 0 (c ∷ cs))

-- `atoi` and `atol`: blanks, a sign, digits. It is the number of the text; the functions that call it
-- store it in an `int` with `to_int`.
unfoldable pub atoi : List ℕ → ℤ
unfolding parse_signed is_space
atoi [] = pos 0
atoi (c ∷ cs) = let rest = atoi cs in if is_space c then rest else parse_signed (c ∷ cs)
