-- ===== src/Prelude/Decimal/RoundTrip.antt =====
-- What `atoi` reads back from a printed number, and how long a printed number is.
use native.Mathlib.Nat.{pow-suc}
use csel_workspace.Prelude.{
  ℕ, zero, suc, ◌+◌, ◌-◌, ◌*◌, ◌/◌, ◌%◌, ◌^◌, ◌≤◌, ◌<◌, ◌≡◌, refl, sym, Bool, true, false, ◌∙◌, ap,
  List, [], ◌∷◌, ◌++◌, arith, ◌==◌, Bool-cases, inl, inr, if◌then◌else◌, length,
}
use csel_workspace.Prelude.Int.{ℤ, pos, negsuc, minus, ◌≤ℤ◌}
use csel_workspace.Prelude.Decimal.{print_from, print_nat, print_int, is_digit, parse_digits, atoi}

-- A text that does not go on with a digit.
abbrev pub ends_number : List ℕ → Bool
ends_number [] = true
ends_number (c ∷ cs) = if is_digit c then false else true

parse_digits-end : (n : ℕ) (rest : List ℕ) → ends_number rest ≡ true → parse_digits n rest ≡ n
unfolding parse_digits
parse_digits-end n [] h = refl
parse_digits-end n (c ∷ cs) h = ground arith

digit_step :
    (a n : ℕ) (rest : List ℕ)
    → parse_digits a ((48 + n % 10) ∷ rest) ≡ parse_digits (a * 10 + n % 10) rest
unfolding parse_digits
digit_step a n rest = ground arith

parse_digits-print_from :
    (f n : ℕ) (rest : List ℕ) → n < f → parse_digits 0 (print_from f n rest) ≡ parse_digits n rest
unfolding print_from
parse_digits-print_from zero n rest h = elim h [ ]
parse_digits-print_from (suc f) n rest h = elim (Bool-cases (n / 10 == 0)) [
  | inl last ↦ rw (last, digit_step) (ap_digits (ground arith))
  | inr more ↦
      rw (more, parse_digits-print_from f (n / 10) _ (ground arith), digit_step)
        (ap_digits (omega arith))
]
  where
    ap_digits : {a b : ℕ} → a ≡ b → parse_digits a rest ≡ parse_digits b rest
    ap_digits e = rw e

pub print_from-append :
    (f n : ℕ) (rest end : List ℕ) → print_from f n rest ++ end ≡ print_from f n (rest ++ end)
unfolding print_from
print_from-append zero n rest end = refl
print_from-append (suc f) n rest end = elim (Bool-cases (n / 10 == 0)) [
  | inl last ↦ rw last
  | inr more ↦ rw (more, print_from-append f (n / 10))
]

-- A printed number begins with a digit.
pub print_from_head :
    (f n : ℕ) (rest : List ℕ)
    → (c : ℕ) × (cs : List ℕ) × (print_from (suc f) n rest ≡ c ∷ cs) × (is_digit c ≡ true)
unfolding print_from is_digit
print_from_head zero n rest = elim (Bool-cases (n / 10 == 0)) [
  | inl last ↦ (48 + n % 10, rest, rw last, ground arith)
  | inr more ↦ (48 + n % 10, rest, rw more, ground arith)
]
print_from_head (suc f) n rest = elim (Bool-cases (n / 10 == 0)) [
  | inl last ↦ (48 + n % 10, rest, rw last, ground arith)
  | inr more ↦
      let (c, cs, e, d) = print_from_head f (n / 10) ((48 + n % 10) ∷ rest) in (c, cs, rw more e, d)
]

atoi-digit :
    (c : ℕ) (cs : List ℕ) → is_digit c ≡ true → atoi (c ∷ cs) ≡ pos (parse_digits 0 (c ∷ cs))
unfolding atoi is_digit
atoi-digit c cs d = ground arith

pub parse_digits-print_nat :
    (n : ℕ) (rest : List ℕ) → ends_number rest ≡ true → parse_digits 0 (print_nat n ++ rest) ≡ n
unfolding print_nat
parse_digits-print_nat n rest h =
    rw (print_from-append (suc n) n [] rest, parse_digits-print_from (suc n) n rest (omega arith))
      (parse_digits-end n rest h)

-- The first digit of a printed number, and what the digits are worth.
pub print_nat_digits :
    (n : ℕ) (rest : List ℕ)
    → ends_number rest ≡ true
    → (c : ℕ) × (cs : List ℕ) × (print_nat n ++ rest ≡ c ∷ cs)
      × (is_digit c ≡ true)
      × (parse_digits 0 (c ∷ cs) ≡ n)
unfolding print_nat
print_nat_digits n rest h =
    let (c, cs, e, d) = print_from_head n n rest in
    let p : print_nat n ++ rest ≡ c ∷ cs = print_from-append (suc n) n [] rest ∙ e in
    (c, cs, p, d, ap (parse_digits 0) (sym p) ∙ parse_digits-print_nat n rest h)

-- `atoi` reads back what `%u` printed, whatever comes behind the number.
pub atoi-print_nat :
    (n : ℕ) (rest : List ℕ) → ends_number rest ≡ true → atoi (print_nat n ++ rest) ≡ pos n
unfolding print_nat
atoi-print_nat n rest h =
    let (c, cs, e, d) = print_from_head n n rest in
    let p = print_from-append (suc n) n [] rest ∙ e in
    rw p (atoi-digit c cs d ∙ ap pos (rw (← p) (parse_digits-print_nat n rest h)))

atoi-minus : (cs : List ℕ) → atoi (b'-' ∷ cs) ≡ minus (parse_digits 0 cs)
unfolding atoi
atoi-minus cs = refl

pub print_int_pos : (n : ℕ) → print_int (pos n) ≡ print_nat n
unfolding print_int print_nat
print_int_pos n = refl

-- The same for `%d`.
pub atoi-print_int :
    (z : ℤ) (rest : List ℕ) → ends_number rest ≡ true → atoi (print_int z ++ rest) ≡ z
unfolding print_int
atoi-print_int (pos n) rest h = atoi-print_nat n rest h
atoi-print_int (negsuc n) rest h =
    atoi-minus (print_nat (suc n) ++ rest) ∙ ap minus (parse_digits-print_nat (suc n) rest h)

length-print_from :
    (k f n : ℕ) (rest : List ℕ)
    → n < 10 ^ suc k
    → length (print_from f n rest) ≤ suc k + length rest
unfolding print_from
length-print_from k zero n rest h = omega arith
length-print_from zero (suc f) n rest h = ground (arith, pow-suc 10 0)
length-print_from (suc k) (suc f) n rest h =
    ground (arith, pow-suc 10 (suc k), length-print_from k f (n / 10) ((48 + n % 10) ∷ rest))

-- A number below 2^32 has at most ten digits.
pub length-print_nat : (n : ℕ) → n < 2 ^ 32 → length (print_nat n) ≤ 10
unfolding print_nat
length-print_nat n h = length-print_from 9 (suc n) n [] (omega arith)

-- `%d` of a 32-bit number takes at most eleven bytes.
pub length-print_int :
    (z : ℤ) → z ≤ℤ pos (2 ^ 32 - 1) → minus (2 ^ 32 - 1) ≤ℤ z → length (print_int z) ≤ 11
unfolding print_int
length-print_int (pos n) h l = omega (arith, length-print_nat n (omega arith))
length-print_int (negsuc n) h l = omega (arith, length-print_nat (suc n) (omega arith))

-- The text of a number with one or two digits.
pub print_nat-one : (n : ℕ) → n < 10 → print_nat n ≡ (48 + n) ∷ []
unfolding print_nat print_from
print_nat-one n h = ground arith

pub print_nat-two : (n : ℕ) → 10 ≤ n → n < 100 → print_nat n ≡ (48 + n / 10) ∷ (48 + n % 10) ∷ []
unfolding print_nat print_from
print_nat-two zero l h = absurd (omega arith)
print_nat-two (suc n) l h = ground arith
