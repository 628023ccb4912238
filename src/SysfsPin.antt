-- ===== src/SysfsPin.antt =====
-- How three of the programs set up a pin as an output through /sys/class/gpio: `open_led` of
-- src/04_file_systems/silly_led/silly_led_control.c, `open_gpio` of src/06_optimization/gpio/gpio.c
-- and of src/06_optimization/mmio/mmio.c.
use csel_workspace.Prelude.{ℕ, List, [], ◌∷◌, ◌++◌}
use csel_workspace.Prelude.Int.{ℤ}
use csel_workspace.Prelude.Decimal.{print_nat}
use csel_workspace.Prelude.Text.{codes}

-- The files below /sys/class/gpio.
pub data PinFile : Type 0 where
  unexport export : PinFile
  direction value : ℕ → PinFile

pub data PinCall : Type 0 where
  opened : PinFile → ℤ → PinCall
  wrote : ℤ → List ℕ → PinCall
  closed : ℤ → PinCall

-- `f = open(file); write(f, text); close(f);` with no look at the result. `opens` is what `open`
-- answers.
unfoldable pub write_file : (PinFile → ℤ) → PinFile → List ℕ → List PinCall
write_file opens file text = let f = opens file in opened file f ∷ wrote f text ∷ closed f ∷ []

-- The descriptor of the pin's value, and the calls made.
unfoldable pub open_output : (PinFile → ℤ) → ℕ → ℤ × List PinCall
open_output opens pin = (
  opens (value pin),
  write_file opens unexport (print_nat pin)
      ++ (write_file opens export (print_nat pin)
          ++ (write_file opens (direction pin) (codes "out")
              ++ (opened (value pin) (opens (value pin)) ∷ []))),
)
