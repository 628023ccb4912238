-- ===== src/Optimization/Toggle.antt =====
-- src/06_optimization/gpio/gpio.c and mmio/mmio.c: a pin toggled through its file, and through its
-- data register.
pub mod Bit
mod Tests
use csel_workspace.Prelude.{
  ℕ, zero, suc, ◌+◌, ◌-◌, ◌*◌, ◌/◌, ◌%◌, ◌^◌, Bool, true, false, not, Option, none, some, List, [],
  ◌∷◌, ◌++◌, ◌==◌, if◌then◌else◌,
}
use csel_workspace.Prelude.Int.{ℤ, pos, negsuc}
use csel_workspace.SysfsPin.{PinFile, PinCall, wrote, open_output}

-- GPIOG11
abbrev pub pin : ℕ
pin = 203

-- The rounds of a loop of gpio.c: what `pwrite` writes, with the NUL that `sizeof` counts, and `on`
-- after them.
unfoldable pub pwrites : ℤ → ℕ → Bool → List PinCall × Bool
pwrites gpio zero on = ([], on)
pwrites gpio (suc k) on =
    let (calls, last) = pwrites gpio k (not on) in
    (wrote gpio (if on then b'1' ∷ 0 ∷ [] else b'0' ∷ 0 ∷ []) ∷ calls, last)

-- `main` of gpio.c, up to `k` rounds of its endless loop; `opens` is what `open` answers.
unfoldable pub gpio_main : (PinFile → ℤ) → ℕ → List PinCall × Bool
gpio_main opens k =
    let (gpio, setup) = open_output opens pin in
    let (measured, on) = pwrites gpio 1000 false in
    let (endless, last) = pwrites gpio k on in (setup ++ (measured ++ endless), last)

-- `v ^= (1<<11)`
unfoldable pub flip_bit : ℕ → ℕ
flip_bit v = if (v / 2 ^ 11) % 2 == 1 then v - 2 ^ 11 else v + 2 ^ 11

-- The words of the registers, by their address.
abbrev pub Registers : Type 0
Registers = ℕ → ℕ

-- `pio` is at the address that `mmap` maps, and points at words of four bytes.
abbrev pub pio : ℕ
pio = 29491200

abbrev pub dat_pio : ℕ
dat_pio = pio + 4 * ((2064 + 6 * 36) / 4)

-- `*dat_pio ^= (1<<11);`
unfoldable pub toggle : Registers → Registers
toggle registers a = if a == dat_pio then flip_bit (registers a) else registers a

unfoldable pub toggles : ℕ → Registers → Registers
toggles zero registers = registers
toggles (suc k) registers = toggles k (toggle registers)

-- The second measurement: `data ^= (1<<11);`
unfoldable pub flips : ℕ → ℕ → ℕ
flips zero data_word = data_word
flips (suc k) data_word = flips k (flip_bit data_word)

-- `main` of mmio.c, up to `k` rounds of its endless loop: the calls on the pin's files, the
-- registers, and `data`; without /dev/mem only the calls. `mmap` is taken to succeed: the code does
-- not look at its result.
unfoldable pub mmio_main : (PinFile → ℤ) → ℤ → ℕ → Registers → List PinCall × Option (Registers × ℕ)
mmio_main opens fd k registers =
    let (gpio, setup) = open_output opens pin in
    let calls = setup ++ (wrote gpio (b'1' ∷ 0 ∷ []) ∷ wrote gpio (b'0' ∷ 0 ∷ []) ∷ []) in
    elim fd [
      | negsuc n ↦ (calls, none)
      | pos n ↦ (calls, some (toggles k (toggles 1000 registers), flips 1000 0))
    ]
