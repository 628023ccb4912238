-- ===== src/Environment/SystemCall/Degrees.antt =====
-- What the program prints for each temperature that the file can hold.
use csel_workspace.Prelude.{
  ◌∙◌, ℕ, zero, suc, ◌+◌, ◌-◌, ◌/◌, ◌%◌, ◌≤◌, ◌<◌, ◌≡◌, refl, true, false, Option, none, some, List,
  [], ◌∷◌, ◌++◌, length, length-append, sym, if◌then◌else◌, ◌==◌, take, take_all, replicate, arith,
  ap,
}
use mathlib.Core.List.{append_assoc}
use csel_workspace.Prelude.Int.{ℤ, pos, negsuc, minus}
use csel_workspace.Prelude.Machine.{to_int, to_int_same, IsInt}
use csel_workspace.Prelude.Decimal.{print_nat, print_int, is_digit, atoi}
use csel_workspace.Prelude.Decimal.RoundTrip.{
  atoi-print_int, length-print_int, print_int_pos, print_nat-one, print_nat-two,
}
use csel_workspace.Prelude.Text.{codes}
use csel_workspace.Environment.SystemCall.{
  quot, rem, print_two, temperature, label, unit_text, line, main,
}

-- What the file of the thermal zone holds for `z`.
abbrev pub thermal_text : ℤ → List ℕ
thermal_text z = print_int z ++ (10 ∷ [])

print_two_digits : (n : ℕ) → n < 100 → print_two (pos n) ≡ (48 + n / 10) ∷ (48 + n % 10) ∷ []
unfolding print_two print_int
print_two_digits n h = ground (arith, print_nat-one n, print_nat-two n)

temperature-some :
    (text past : List ℕ)
    → 1 ≤ length text
    → temperature true (some text) past
      ≡ to_int (atoi (take 50 text ++ (replicate (50 - length text) 0 ++ past)))
unfolding temperature
temperature-some [] past h = absurd (omega arith)
temperature-some (b ∷ bs) past h = refl

temperature-thermal_text :
    (z : ℤ) (past : List ℕ) → IsInt z → temperature true (some (thermal_text z)) past ≡ z
unfolding is_digit
temperature-thermal_text z past (l, h) =
    let size : length (thermal_text z) ≤ 12 = omega (
      arith,
      l,
      h,
      length-append (print_int z) (10 ∷ []),
      length-print_int z (omega (arith, h)) (omega (arith, l)),
    ) in
    rw
      (
        temperature-some (thermal_text z) past
            (omega (arith, length-append (print_int z) (10 ∷ []))),
        take_all 50 (thermal_text z) (omega (arith, size)),
        append_assoc,
      )
      (ap to_int (atoi-print_int z (10 ∷ (replicate (50 - length (thermal_text z)) 0 ++ past)) refl)
        ∙ to_int_same z (l, h))

abbrev digit : ℕ → ℕ
digit n = 48 + n % 10

abbrev hundredths_below : ℕ → List ℕ
hundredths_below h = if h == 0 then b'0' ∷ b'0' ∷ [] else b'-' ∷ print_nat h

-- A temperature in thousandths of a degree, rounded towards 0 to hundredths. From 0 on there are
-- two digits behind the point; below 0 the hundredths have a sign of their own, where they are not 0,
-- and one digit where they are below ten.
abbrev pub degrees : ℤ → List ℕ
degrees (pos t) = print_nat (t / 1000) ++ (b'.' ∷ digit (t / 100) ∷ digit (t / 10) ∷ [])
degrees (negsuc n) =
    print_int (minus (suc n / 1000)) ++ (b'.' ∷ hundredths_below (suc n / 10 % 100))

rem-minus : (m : ℕ) → rem (minus m) 100 ≡ minus (m % 100)
unfolding rem
rem-minus zero = refl
rem-minus (suc m) = refl

print_two-minus : (h : ℕ) → h < 100 → print_two (minus h) ≡ hundredths_below h
unfolding print_two print_int
print_two-minus zero l = refl
print_two-minus (suc h) l = ground (arith, print_nat-one (suc h), print_nat-two (suc h))

line_parts :
    (z : ℤ) (whole part : List ℕ)
    → print_int (quot z 1000) ≡ whole
    → print_two (rem (quot z 10) 100) ≡ part
    → line z ≡ label ++ ((whole ++ (b'.' ∷ part)) ++ unit_text)
unfolding line
line_parts z whole part w p =
    ap (λ t. label ++ t) (rw (w, p) (sym (append_assoc whole (b'.' ∷ part) unit_text)))

line-degrees : (z : ℤ) → line z ≡ label ++ (degrees z ++ unit_text)
unfolding quot rem
line-degrees (pos t) =
    line_parts (pos t) (print_nat (t / 1000)) (digit (t / 100) ∷ digit (t / 10) ∷ [])
      (print_int_pos (t / 1000)) (rw (print_two_digits (t / 10 % 100) (omega arith)) (ground arith))
line-degrees (negsuc n) =
    line_parts (negsuc n) (print_int (minus (suc n / 1000))) (hundredths_below (suc n / 10 % 100))
      refl (rw (rem-minus (suc n / 10)) (print_two-minus (suc n / 10 % 100) (omega arith)))

without_file :
    (bytes : Option (List ℕ)) (past : List ℕ)
    → main false bytes past ≡ label ++ (codes "99.00" ++ unit_text)
unfolding main temperature print_nat
without_file none past = line-degrees (pos 99000)
without_file (some []) past = line-degrees (pos 99000)
without_file (some (b ∷ bs)) past = line-degrees (pos 99000)

-- Where the file holds an `int` in thousandths, the program prints it rounded towards 0, with two
-- digits behind the point, if it is not negative; below 0 the hundredths are printed with a sign of
-- their own behind the point, or as 00. Where the file cannot be opened, or nothing is read from it,
-- the program prints 99.00.
pub main_prints :
    (z : ℤ) (bytes : Option (List ℕ)) (past : List ℕ)
    → IsInt z
    → (main true (some (thermal_text z)) past ≡ label ++ (degrees z ++ unit_text))
      × (main false bytes past ≡ label ++ (codes "99.00" ++ unit_text))
      × (main true none past ≡ label ++ (codes "99.00" ++ unit_text))
      × (main true (some []) past ≡ label ++ (codes "99.00" ++ unit_text))
unfolding main temperature print_nat
main_prints z bytes past h = (
  rw (temperature-thermal_text z past h) (line-degrees z),
  without_file bytes past,
  line-degrees (pos 99000),
  line-degrees (pos 99000),
)
