-- ===== src/Optimization/Toggle/Bit.antt =====
-- What the toggling programs leave: one bit of one register, and the level of the pin.
use mathlib.Core.Path.{subst}
use csel_workspace.Prelude.{
  ℕ, zero, suc, ◌+◌, ◌/◌, ◌%◌, ◌^◌, ◌≤◌, ◌≡◌, refl, sym, ap, ◌∙◌, ◌≢◌, some, arith,
}
use csel_workspace.Prelude.Int.{ℤ, pos}
use csel_workspace.SysfsPin.{PinFile}
use csel_workspace.Optimization.Toggle.{
  flip_bit, Registers, pio, dat_pio, toggle, toggles, flips, mmio_main,
}

-- `w` is `v` with its bit 11 as it was after an even number of flips, and the other after an odd.
pub record Flipped (k v w : ℕ) : Type 0 where
  pub low : w % 2 ^ 11 ≡ v % 2 ^ 11
  pub high : w / 2 ^ 12 ≡ v / 2 ^ 12
  pub bit : (w / 2 ^ 11) % 2 ≡ (v / 2 ^ 11 + k) % 2

flip_bit_lem : (v : ℕ) → Flipped 1 v (flip_bit v)
unfolding flip_bit
flip_bit_lem v = record { low = ground arith; high = ground arith; bit = ground arith }

flips_lem : (k v : ℕ) → Flipped k v (flips k v)
unfolding flips
flips_lem zero v = record { low = refl; high = refl; bit = ap (λ n. n % 2) (omega arith) }
flips_lem (suc k) v =
    let one = flip_bit_lem v in
    let more = flips_lem k (flip_bit v) in
    record {
      low = more.low ∙ one.low;
      high = more.high ∙ one.high;
      bit = omega (arith, more.bit, one.bit);
    }

-- One flip and one more is none.
flip_twice : (v : ℕ) → flip_bit (flip_bit v) ≡ v
unfolding flip_bit
flip_twice v = ground arith

toggles_at :
    (k : ℕ) (registers : Registers) → toggles k registers dat_pio ≡ flips k (registers dat_pio)
unfolding toggles toggle flips
toggles_at zero registers = refl
toggles_at (suc k) registers = toggles_at k (toggle registers)

toggles_elsewhere :
    (k : ℕ) (registers : Registers) (a : ℕ) → a ≢ dat_pio → toggles k registers a ≡ registers a
unfolding toggles toggle
toggles_elsewhere zero registers a n = refl
toggles_elsewhere (suc k) registers a n =
    toggles_elsewhere k (toggle registers) a n ∙ ground (arith, n)

-- The measurement, which is even, leaves no trace.
after_measurement : (k v : ℕ) → Flipped k v (flips k (flips 1000 v))
after_measurement k v =
    let one = flips_lem 1000 v in
    let more = flips_lem k (flips 1000 v) in
    record {
      low = more.low ∙ one.low;
      high = more.high ∙ one.high;
      bit = omega (arith, more.bit, one.bit);
    }

zero_of_Flipped : (w : ℕ) → Flipped 1000 0 w → w ≡ 0
zero_of_Flipped w f = omega (arith, f.low, f.high, f.bit)

two_runs :
    (j k : ℕ) (registers : Registers)
    → toggles k (toggles j registers) dat_pio ≡ flips k (flips j (registers dat_pio))
two_runs j k registers = toggles_at k (toggles j registers) ∙ ap (flips k) (toggles_at j registers)

-- When /dev/mem opens, whatever the registers hold: after the measurements and `k` rounds of the
-- endless loop, bit 11 of the data register of port G is the other exactly when `k` is odd, its
-- other bits are as they were, and so is the word at any other address `a`; `data` is 0 again. The
-- register lies in the page of 4096 bytes that is mapped.
pub mmio_main-Flipped :
    (opens : PinFile → ℤ) (n k : ℕ) (registers : Registers) (a : ℕ)
    → a ≢ dat_pio
    → (last : Registers) × ((mmio_main opens (pos n) k registers).1 ≡ some (last, 0))
      × Flipped k (registers dat_pio) (last dat_pio)
      × (last a ≡ registers a)
      × (pio ≤ dat_pio)
      × (dat_pio + 4 ≤ pio + 4096)
unfolding mmio_main
mmio_main-Flipped opens n k registers a d = (
  toggles k (toggles 1000 registers),
  ap (λ w. some (toggles k (toggles 1000 registers), w))
      (zero_of_Flipped (flips 1000 0) (flips_lem 1000 0)),
  subst (Flipped k (registers dat_pio)) (sym (two_runs 1000 k registers))
      (after_measurement k (registers dat_pio)),
  toggles_elsewhere k (toggles 1000 registers) a d ∙ toggles_elsewhere 1000 registers a d,
  omega arith,
  omega arith,
)
