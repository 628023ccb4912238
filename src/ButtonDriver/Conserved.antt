-- ===== src/ButtonDriver/Conserved.antt =====
-- The numbers that readers get add up to the number of interrupts.
use csel_workspace.Prelude.{
  ℕ, suc, ◌+◌, ◌-◌, ◌^◌, ◌≤◌, ◌<◌, ◌≡◌, refl, ap, ◌∙◌, Bool, true, false, List, [], ◌∷◌, ◌++◌,
  length, length-append, take, take_all, ltb, ◌==◌, if◌then◌else◌, arith, Bool-cases, ◌⊎◌, inl, inr,
  lt→ltb,
}
use csel_workspace.Prelude.Int.{pos, minus, pos_part}
use csel_workspace.Prelude.Decimal.{print_int, atoi, is_digit}
use csel_workspace.Prelude.Decimal.RoundTrip.{atoi-print_int, length-print_int}
use csel_workspace.Prelude.Errno.{eagain}
use csel_workspace.ButtonDriver.{
  atomic_inc, atomic_read, Read, returns, waits, count_text, copy_count, read_begin, read_signal,
  read_end, nb_of_interrupts_store, nb_of_interrupts_show, Event, interrupt, begins, ends, signal,
  store, step, run, skeleton_poll, parsed_zero,
}

unfoldable pub interrupts : List Event → ℕ
interrupts [] = 0
interrupts (interrupt ∷ es) = suc (interrupts es)
interrupts (_ ∷ es) = interrupts es

-- No copy to a reader fails, and nobody resets the counter.
unfoldable pub lossless : List Event → Bool
lossless [] = true
lossless (begins nonblock fails ∷ es) = if fails then false else lossless es
lossless (ends fails ∷ es) = if fails then false else lossless es
lossless (store val count ∷ es) = if parsed_zero val then false else lossless es
lossless (interrupt ∷ es) = lossless es
lossless (signal ∷ es) = lossless es

-- The numbers in the texts that the readers got, added up.
unfoldable pub delivered : List Read → ℕ
delivered [] = 0
delivered (returns ret text ∷ reads) = pos_part (atoi text) + delivered reads
delivered (waits ∷ reads) = delivered reads

inc_small : (c : ℕ) → c + 1 < 2 ^ 32 → atomic_inc c ≡ c + 1
unfolding atomic_inc
inc_small c h = omega arith

atomic_read_small : (c : ℕ) → c < 2 ^ 31 → atomic_read c ≡ pos c
unfolding atomic_read
atomic_read_small c h = rw (lt→ltb c (2 ^ 31) h) refl

signed_short :
    (c : ℕ)
    → c < 2 ^ 32
    → length (print_int (if ltb c (2 ^ 31) then pos c else minus (2 ^ 32 - c))) ≤ 11
signed_short c h =
    length-print_int (if ltb c (2 ^ 31) then pos c else minus (2 ^ 32 - c)) (ground arith)
      (ground arith)

-- The text fits the 16 bytes of the code's buffer with its NUL, whatever the counter holds.
count_text_short : (c : ℕ) → c < 2 ^ 32 → length (count_text c) ≤ 12
unfolding count_text atomic_read
count_text_short c h =
    let bound =
      length-append (print_int (if ltb c 2147483648 then pos c else minus (4294967296 - c)))
        (10 ∷ []) in
    omega (arith, bound, signed_short c h)

copy_count_lem :
    (c : ℕ) → c < 2 ^ 32 → copy_count c false ≡ returns (pos (length (count_text c))) (count_text c)
unfolding copy_count
copy_count_lem c h = ap (returns (pos (length (count_text c)))) (
    ap (take (length (count_text c)))
      (take_all 15 (count_text c) (omega (arith, count_text_short c h)))
    ∙ take_all (length (count_text c)) (count_text c) (omega arith))

delivered_count :
    (c : ℕ) (reads : List Read)
    → c < 2 ^ 31
    → delivered (copy_count c false ∷ reads) ≡ c + delivered reads
unfolding delivered count_text is_digit
delivered_count c reads h =
    rw (copy_count_lem c (omega arith), atomic_read_small c h)
      (ap (λ z. pos_part z + delivered reads) (atoi-print_int (pos c) (10 ∷ []) refl))

delivered-append : (xs ys : List Read) → delivered (xs ++ ys) ≡ delivered xs + delivered ys
unfolding delivered
delivered-append [] ys = omega arith
delivered-append (returns ret text ∷ xs) ys = omega (arith, delivered-append xs ys)
delivered-append (waits ∷ xs) ys = delivered-append xs ys

zero_of : (c : ℕ) → (c == 0) ≡ true → c ≡ 0
zero_of c e = ground arith

-- A first part of a read takes the whole counter to the caller.
read_begin_lem :
    (nonblock : Bool) (c : ℕ) (reads : List Read)
    → c < 2 ^ 31
    → ((read_begin nonblock false c).0 ≡ 0)
      × (delivered ((read_begin nonblock false c).1 ∷ reads) ≡ c + delivered reads)
unfolding read_begin atoi delivered
read_begin_lem nonblock c reads h = elim (Bool-cases (c == 0)) [
  | inl empty ↦ rw empty (refl, empty_read nonblock c reads empty)
  | inr some_there ↦ rw some_there (refl, delivered_count c reads h)
]
  where
    empty_read :
        (nonblock : Bool) (c : ℕ) (reads : List Read)
        → (c == 0) ≡ true
        → delivered ((if nonblock then returns (minus eagain) [] else waits) ∷ reads)
          ≡ c + delivered reads
    empty_read true c reads e = omega (arith, zero_of c e)
    empty_read false c reads e = omega (arith, zero_of c e)

-- Interrupts and readers in any order, one atomic access of the counter at a time: when no copy to a
-- reader fails, no write resets the counter and all interrupts together stay below 2^31, the
-- numbers that `atoi` finds in what the readers got, with what the counter holds in the end, add up
-- to what it held before and the number of interrupts.
pub interrupts_conserved :
    (es : List Event) (c : ℕ)
    → c + interrupts es < 2 ^ 31
    → lossless es ≡ true
    → (run es c).0 + delivered (run es c).1 ≡ c + interrupts es
unfolding run step lossless interrupts delivered read_signal read_end nb_of_interrupts_store atoi
interrupts_conserved [] c h l = omega arith
interrupts_conserved (interrupt ∷ es) c h l =
    let e : atomic_inc c ≡ c + 1 = inc_small c (omega arith) in
    rw e (omega (arith, interrupts_conserved es (c + 1) (omega arith) l))
interrupts_conserved (begins nonblock true ∷ es) c h l = absurd (ground (arith, l))
interrupts_conserved (begins nonblock false ∷ es) c h l =
    let first =
      read_begin_lem nonblock c (run es (read_begin nonblock false c).0).1 (omega arith) in
    let rest =
      ap (λ c'. (run es c').0 + delivered (run es c').1) first.0
      ∙ interrupts_conserved es 0 (omega arith) l in
    omega (arith, first.1, rest)
interrupts_conserved (ends true ∷ es) c h l = absurd (ground (arith, l))
interrupts_conserved (ends false ∷ es) c h l =
    omega (
      arith,
      delivered_count c (run es 0).1 (omega arith),
      interrupts_conserved es 0 (omega arith) l,
    )
interrupts_conserved (signal ∷ es) c h l = omega (arith, interrupts_conserved es c h l)
interrupts_conserved (store val count ∷ es) c h l = elim (Bool-cases (parsed_zero val)) [
  | inl zero_read ↦ absurd (ground (arith, l, zero_read))
  | inr other ↦ rw other (interrupts_conserved es c h (rw other at l))
]

-- Poll and a read that does not block agree, while the copy succeeds: with a counter of 0 the mask
-- is 0 and the read answers -EAGAIN; otherwise the mask has both bits, and the read empties the
-- counter and brings its decimal value with a newline, in at most twelve bytes.
pub poll-read :
    (c : ℕ)
    → c < 2 ^ 32
    → ((c ≡ 0) × (skeleton_poll c ≡ 0) × (read_begin true false c ≡ (0, returns (minus eagain) [])))
      ⊎ ((0 < c)
          × (skeleton_poll c ≡ 65)
          × (read_begin true false c
              ≡ (0, returns (pos (length (count_text c))) (nb_of_interrupts_show c)))
          × (length (count_text c) ≤ 12))
unfolding skeleton_poll read_begin nb_of_interrupts_show
poll-read c h = elim (Bool-cases (c == 0)) [
  | inl empty ↦ inl (zero_of c empty, rw empty refl, rw empty refl)
  | inr more ↦ inr (
    ground (arith, more),
    rw more refl,
    rw more (ap (λ r. (0, r)) (copy_count_lem c h)),
    count_text_short c h,
  )
]
