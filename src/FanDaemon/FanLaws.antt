-- ===== src/FanDaemon/FanLaws.antt =====
-- What the daemon reads from the driver's files, and what the buttons then write.
use csel_workspace.Prelude.{
  take_all, take-append, take-cons, ℕ, ◌+◌, ◌-◌, ◌≤◌, ◌<◌, ◌^◌, ◌≡◌, refl, Option, none, some, List,
  [], ◌∷◌, ◌++◌, arith, length, take, length-append, length-take, min, ap, ◌∙◌,
}
use Prim.Native.Nat.{max}
use mathlib.Core.List.{append_assoc}
use csel_workspace.Prelude.Int.{ℤ, pos, negsuc, minus, ◌≤ℤ◌}
use csel_workspace.Prelude.Machine.{to_int, to_int_same}
use csel_workspace.Prelude.Decimal.{print_int, atoi, is_digit}
use csel_workspace.Prelude.Decimal.RoundTrip.{atoi-print_int, length-print_int}
use csel_workspace.FanDriver.{FanCtrl, reading}
use csel_workspace.FanDriver.Sysfs.{Shown, emit, frequency_show, cpu_temp_show}
use csel_workspace.FanDaemon.Fan.{
  Fan, read_number, fan_read_frequency, fan_get_cpu_temp, fan_increase_frequency,
  fan_decrease_frequency, fan_set_frequency, set_frequency_bytes, increased, decreased,
}

-- The bytes of a text that the driver shows, as a read returns them.
abbrev pub shown_bytes : Shown → Option (List ℕ)
shown_bytes (emit text) = some text
shown_bytes _ = none

read_number-print_int :
    (z : ℤ) → length (print_int z) ≤ 11 → read_number (some (print_int z ++ (10 ∷ []))) ≡ to_int z
unfolding read_number is_digit
read_number-print_int z h =
    rw
      (
        take_all 19 (print_int z ++ (10 ∷ []))
            (omega (arith, length-append (print_int z) (10 ∷ []))),
        append_assoc,
      )
      (ap to_int (atoi-print_int z (10 ∷ 0 ∷ []) refl))

-- The frequency that the driver shows is read by the daemon as an `int`, and the temperature as it
-- is, for every value that an `s32` can have but the lowest.
pub read-show :
    (fc : FanCtrl) (t : ℤ)
    → fc.frequency < 2 ^ 32
    → negsuc (2 ^ 31 - 1) ≤ℤ t
    → t ≤ℤ pos (2 ^ 31 - 1)
    → (fan_read_frequency (shown_bytes (frequency_show fc)) ≡ to_int (pos fc.frequency))
      × (fan_get_cpu_temp (shown_bytes (cpu_temp_show (reading t))) ≡ t)
unfolding fan_read_frequency fan_get_cpu_temp frequency_show cpu_temp_show print_int
read-show fc t h lo hi = (
  read_number-print_int (pos fc.frequency)
      (length-print_int (pos fc.frequency) (omega arith) (omega arith)),
  read_number-print_int t (length-print_int t (omega arith) (omega arith))
      ∙ to_int_same t (omega arith, omega arith),
)

-- Below 2^31 it is the frequency itself.
pub read-show_small :
    (fc : FanCtrl)
    → fc.frequency < 2 ^ 31
    → fan_read_frequency (shown_bytes (frequency_show fc)) ≡ pos fc.frequency
read-show_small fc h =
    (read-show fc (pos 0) (omega (arith, h)) (omega arith) (omega arith)).0
    ∙ to_int_same (pos fc.frequency) (omega arith, omega (arith, h))

-- A press of button 1 in the driver's state `fc` writes one more than its frequency, at most 100; a
-- press of button 2 writes one less, at least 1. What is written lies between 1 and 100. At the
-- highest `int` the sum of the code overflows.
pub step-show :
    (f : Fan) (fc : FanCtrl) (junk : List ℕ)
    → fc.frequency + 1 < 2 ^ 31
    → (fan_increase_frequency f (shown_bytes (frequency_show fc)) junk
        ≡ fan_set_frequency f (pos (min 100 (fc.frequency + 1))) junk)
      × (fan_decrease_frequency f (shown_bytes (frequency_show fc)) junk
          ≡ fan_set_frequency f (pos (max 1 (fc.frequency - 1))) junk)
unfolding fan_increase_frequency fan_decrease_frequency increased decreased
step-show f fc junk h =
    let read : fan_read_frequency (shown_bytes (frequency_show fc)) ≡ pos fc.frequency =
      read-show_small fc (omega (arith, h)) in
    (ground arith, ground arith)

-- When the read of the frequency fails, button 1 writes 0, which is below the minimum and switches
-- the fan off, and button 2 writes 1.
pub step_failed :
    (f : Fan) (junk : List ℕ)
    → (fan_increase_frequency f none junk ≡ fan_set_frequency f (pos 0) junk)
      × (fan_decrease_frequency f none junk ≡ fan_set_frequency f (pos 1) junk)
unfolding fan_increase_frequency fan_decrease_frequency increased decreased fan_read_frequency
step_failed f junk = (refl, refl)

-- The bytes that `fan_set_frequency` writes.
pub set_frequency_bytes-split :
    (z : ℤ) (junk : List ℕ)
    → length (print_int z) ≤ 11
    → set_frequency_bytes z junk ≡ print_int z ++ (0 ∷ take (20 - length (print_int z) - 1) junk)
unfolding set_frequency_bytes
set_frequency_bytes-split z junk h =
    rw
      (
        take_all 19 (print_int z) (omega arith),
        take-append 20 (print_int z) (0 ∷ junk) (omega arith),
      )
      (ap (λ t. print_int z ++ t) (take-cons (20 - length (print_int z)) 0 junk (omega arith)))

-- `fan_set_frequency` writes 20 bytes that begin with the number's text and a NUL: a reader of the
-- number gets back the value, whatever the uninitialised rest of the buffer holds.
pub atoi-set_frequency_bytes :
    (z : ℤ) (junk : List ℕ)
    → minus (2 ^ 32 - 1) ≤ℤ z
    → z ≤ℤ pos (2 ^ 32 - 1)
    → 19 ≤ length junk
    → (atoi (set_frequency_bytes z junk) ≡ z) × (length (set_frequency_bytes z junk) ≡ 20)
unfolding is_digit
atoi-set_frequency_bytes z junk lo hi h = (
  rw split (atoi-print_int z (0 ∷ rest) refl),
  rw split (
      omega (
        arith,
        short,
        length-append (print_int z) (0 ∷ rest),
        length-take (20 - length (print_int z) - 1) junk,
      )),
)
  where
    short : length (print_int z) ≤ 11
    short = length-print_int z hi lo

    rest : List ℕ
    rest = take (20 - length (print_int z) - 1) junk

    split : set_frequency_bytes z junk ≡ print_int z ++ (0 ∷ rest)
    split = set_frequency_bytes-split z junk short
