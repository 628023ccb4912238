-- ===== src/Optimization/Toggle/Tests.antt =====
-- Runs of the toggling programs, and examples of their theorems.
use csel_workspace.Prelude.{arith, ◌+◌, ◌≤◌, ◌≡◌, refl, true, false, some, [], ◌∷◌}
use csel_workspace.Prelude.Int.{pos}
use csel_workspace.SysfsPin.{wrote}
use csel_workspace.Optimization.Toggle.{Registers, pio, dat_pio, mmio_main, pwrites}
use csel_workspace.Optimization.Toggle.Bit.{Flipped, mmio_main-Flipped}

test_pwrites : pwrites (pos 3) 3 false ≡ (
  wrote (pos 3) (b'0' ∷ 0 ∷ [])
      ∷ wrote (pos 3) (b'1' ∷ 0 ∷ [])
      ∷ wrote (pos 3) (b'0' ∷ 0 ∷ [])
      ∷ [],
  true,
)
unfolding pwrites
test_pwrites = refl

abbrev all_ones : Registers
all_ones = λ a. 4294967295

test_mmio_main-Flipped :
    (last : Registers) × ((mmio_main (λ f. pos 3) (pos 4) 1 all_ones).1 ≡ some (last, 0))
    × Flipped 1 4294967295 (last dat_pio)
    × (last 0 ≡ 4294967295)
    × (pio ≤ dat_pio)
    × (dat_pio + 4 ≤ pio + 4096)
test_mmio_main-Flipped = mmio_main-Flipped (λ f. pos 3) 4 1 all_ones 0 (λ e. ground (arith, e))
