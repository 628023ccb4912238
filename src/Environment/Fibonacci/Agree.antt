-- ===== src/Environment/Fibonacci/Agree.antt =====
-- The two functions of fibonacci.c against the definition of the Fibonacci numbers.
use csel_workspace.Prelude.{
  if◌then◌else◌, ℕ, zero, suc, ◌+◌, ◌-◌, ◌^◌, ◌≤◌, ◌<◌, ◌≡◌, refl, sym, ap, ◌∙◌, Option, none, some,
  arith, leb, inl, inr, Bool-cases,
}
use csel_workspace.Prelude.Int.{ℤ, pos, ◌+ℤ◌, ◌-ℤ◌}
use csel_workspace.Environment.Fibonacci.{
  long, add_long, fibonacci_from, fibonacci_r, rounds, fibonacci_i,
}

-- The Fibonacci numbers.
unfoldable pub fib : ℕ → ℕ
fib zero = 0
fib (suc zero) = 1
fib (suc (suc n)) = fib (suc n) + fib n

-- `n` steps from a pair of neighbours.
fib_pair : ℕ → ℕ → ℕ → ℕ
fib_pair zero a b = a
fib_pair (suc n) a b = fib_pair n b (b + a)

fib_pair_lem : (n k : ℕ) → fib_pair n (fib k) (fib (suc k)) ≡ fib (n + k)
unfolding fib fib_pair
fib_pair_lem zero k = ap fib (omega arith)
fib_pair_lem (suc n) k = fib_pair_lem n (suc k) ∙ ap fib (omega arith)

pub fib_92 : fib 92 ≡ 7540113804746346429
unfolding fib fib_pair
fib_92 = sym (fib_pair_lem 92 0)

pub fib_93 : fib 93 ≡ 12200160415121876738
unfolding fib fib_pair
fib_93 = sym (fib_pair_lem 93 0)

fib_grows : (n : ℕ) → fib n ≤ fib (suc n)
unfolding fib
fib_grows zero = ground arith
fib_grows (suc zero) = ground arith
fib_grows (suc (suc n)) = omega (arith)

pub fib_monotone : (m k : ℕ) → fib m ≤ fib (m + k)
unfolding fib
fib_monotone m zero = let e : fib (m + 0) ≡ fib m = ap fib (omega arith) in omega (arith, e)
fib_monotone m (suc k) =
    let shift : m + suc k ≡ suc (m + k) = omega arith in
    let e : fib (m + suc k) ≡ fib (suc (m + k)) = ap (λ x. fib x) shift in
    omega (arith, e, fib_monotone m k, fib_grows (m + k))

-- Up to which number a Fibonacci number is a `long`.
pub fib_fits : (n : ℕ) → n ≤ 92 → fib n < 2 ^ 63
fib_fits n h =
    let e : fib (n + (92 - n)) ≡ fib 92 = ap fib (omega (arith, h)) in
    omega (arith, e, fib_92, fib_monotone n (92 - n))

fib_exceeds : (n : ℕ) → 93 ≤ n → 2 ^ 63 ≤ fib n
fib_exceeds n h =
    let e : fib (93 + (n - 93)) ≡ fib n = ap fib (omega (arith, h)) in
    omega (arith, e, fib_93, fib_monotone 93 (n - 93))

long_fits : (n : ℕ) → n < 2 ^ 63 → long (pos n) ≡ some (pos n)
unfolding long
long_fits n h = ground (arith, h)

long_exceeds : (n : ℕ) → 2 ^ 63 ≤ n → long (pos n) ≡ none
unfolding long
long_exceeds n h = ground (arith, h)

sum_lem : (a b : ℕ) → pos a +ℤ pos b ≡ pos (a + b)
unfolding ◌+ℤ◌
sum_lem a b = ground arith

difference_lem : (a b : ℕ) → pos (a + b) -ℤ pos b ≡ pos a
unfolding ◌-ℤ◌
difference_lem a b = ground arith

fibonacci_from_fits : (n : ℕ) → n ≤ 92 → fibonacci_from n ≡ some (pos (fib n))
unfolding fibonacci_from add_long fib
fibonacci_from_fits zero h = refl
fibonacci_from_fits (suc zero) h = refl
fibonacci_from_fits (suc (suc n)) h =
    rw (fibonacci_from_fits (suc n) (omega (arith, h)), fibonacci_from_fits n (omega (arith, h)))
      (ap long (sum_lem (fib (suc n)) (fib n)) ∙ long_fits _ (fib_fits (suc (suc n)) h))

add_long_right : (a : Option ℤ) → add_long a none ≡ none
unfolding add_long
add_long_right none = refl
add_long_right (some a) = refl

-- From 93 on, the sum at the top or one below it is too large.
fibonacci_from_exceeds : (n : ℕ) → 93 ≤ n → fibonacci_from n ≡ none
unfolding fibonacci_from add_long fib
fibonacci_from_exceeds zero h = absurd (omega arith)
fibonacci_from_exceeds (suc zero) h = absurd (omega arith)
fibonacci_from_exceeds (suc (suc n)) h = elim (Bool-cases (leb 93 (suc n))) [
  | inl above ↦ rw (fibonacci_from_exceeds (suc n) (ground (arith, above))) refl
  | inr at ↦
      rw
        (
          fibonacci_from_fits (suc n) (ground (arith, at)),
          fibonacci_from_fits n (ground (arith, at)),
        )
        (ap long (sum_lem (fib (suc n)) (fib n)) ∙ long_exceeds _ (fib_exceeds (suc (suc n)) h))
]

rounds_step :
    (k a b : ℕ) → b + a < 2 ^ 63 → rounds (suc k) (pos a) (pos b) ≡ rounds k (pos b) (pos (b + a))
unfolding rounds
rounds_step k a b h =
    rw
      (rounds, sum_lem b a, long_fits (b + a) h, difference_lem b a, long_fits b (omega (arith, h)))
      refl

rounds_stop : (k a b : ℕ) → 2 ^ 63 ≤ b + a → rounds (suc k) (pos a) (pos b) ≡ none
unfolding rounds
rounds_stop k a b h = rw (rounds, sum_lem b a, long_exceeds (b + a) h) refl

rounds_fits :
    (k m : ℕ) → k + m ≤ 91 → rounds k (pos (fib m)) (pos (fib (suc m))) ≡ some (pos (fib (k + m)))
unfolding rounds fib
rounds_fits zero m h = ap (λ n. some (pos (fib n))) (omega arith)
rounds_fits (suc k) m h =
    rounds_step k (fib m) (fib (suc m)) (fib_fits (suc (suc m)) (omega (arith, h)))
    ∙ (rounds_fits k (suc m) (omega (arith, h)) ∙ ap (λ n. some (pos (fib n))) (omega arith))

rounds_exceeds : (k m : ℕ) → m ≤ 91 → 92 ≤ k + m → rounds k (pos (fib m)) (pos (fib (suc m))) ≡ none
unfolding rounds fib
rounds_exceeds zero m l h = absurd (omega (arith, l, h))
rounds_exceeds (suc k) m l h = elim (Bool-cases (leb m 90)) [
  | inl more ↦
      rounds_step k (fib m) (fib (suc m)) (fib_fits (suc (suc m)) (ground (arith, more)))
      ∙ rounds_exceeds k (suc m) (ground (arith, more)) (omega (arith, h))
  | inr last ↦
      rounds_stop k (fib m) (fib (suc m)) (fib_exceeds (suc (suc m)) (ground (arith, last)))
]

-- For every number that is not negative: `fibonacci_r` brings the Fibonacci number up to 92, from
-- where on it is no `long`. `fibonacci_i` brings it up to 91 only: at 92 it has computed the number
-- after it, which it does not need.
pub fibonacci_agree :
    (n : ℕ)
    → (fibonacci_r (pos n) ≡ (if leb n 92 then some (pos (fib n)) else none))
      × (fibonacci_i (pos n) ≡ (if leb n 91 then some (pos (fib n)) else none))
unfolding fibonacci_r fibonacci_i fib
fibonacci_agree n = (
  elim (Bool-cases (leb n 92)) [
    | inl low ↦ rw low (fibonacci_from_fits n (ground (arith, low)))
    | inr high ↦ rw high (fibonacci_from_exceeds n (ground (arith, high)))
  ],
  elim (Bool-cases (leb n 91)) [
    | inl low ↦
        rw low (rounds_fits n 0 (ground (arith, low)) ∙ ap (λ k. some (pos (fib k))) (omega arith))
    | inr high ↦ rw high (rounds_exceeds n 0 (omega arith) (ground (arith, high)))
  ],
)
