-- ===== src/FanDaemon/Gpios.antt =====
-- src/07_miniproj/daemon/gpios.c: the LED and the three buttons, through the files of sysfs.
pub mod Balance
use csel_workspace.Prelude.{
  ℕ, ◌+◌, Bool, true, false, List, [], ◌∷◌, ◌++◌, ◌==◌, ◌≡◌, Option, if◌then◌else◌, arith, refl,
  ◌∙◌, map,
}
use csel_workspace.Prelude.Int.{ℤ, pos, ltb_ℤ}
use csel_workspace.Prelude.Decimal.{print_nat}
use csel_workspace.FanDaemon.Calls.{Call, write}
use csel_workspace.FanDaemon.Fan.{first_byte}

abbrev pub button_gpios : List ℕ
button_gpios = 0 ∷ 2 ∷ 3 ∷ []

abbrev pub button3_gpio : ℕ
button3_gpio = 3

abbrev pub power_led_gpio : ℕ
power_led_gpio = 362

-- The files below /sys/class/gpio.
pub data GpioFile : Type 0 where
  unexport export : GpioFile
  direction edge value : ℕ → GpioFile

pub data Access : Type 0 where
  opened : GpioFile → ℤ → Access
  wrote : ℤ → List ℕ → Access
  closed : ℤ → Access
  drained : ℤ → Access  -- `lseek` and `read`

-- `gpios_fd_t`
pub record Gpios : Type 0 where
  pub led_fd : ℤ
  pub button_fds : List ℤ

abbrev pub is_fd : ℤ → Bool
is_fd fd = if ltb_ℤ fd (pos 0) then false else true

-- `f = open(file); if (f >= 0) { write each text; close(f); }`, where `open` returned `fd`.
write_file : GpioFile → ℤ → List (List ℕ) → List Access
write_file file fd texts =
    opened file fd ∷ (if is_fd fd then map (wrote fd) texts ++ (closed fd ∷ []) else [])

numbers : List (List ℕ)
numbers = print_nat power_led_gpio ∷ map print_nat button_gpios

-- "out", "in", "both"
abbrev text_out : List ℕ
text_out = b'o' ∷ b'u' ∷ b't' ∷ []

abbrev text_in : List ℕ
text_in = b'i' ∷ b'n' ∷ []

abbrev text_both : List ℕ
text_both = b'b' ∷ b'o' ∷ b't' ∷ b'h' ∷ []

module _ (os_open : GpioFile → ℤ) where
  -- One round of the loop that configures the buttons; the last file stays open.
  configure : ℕ → List Access
  configure gpio =
      write_file (direction gpio) (os_open (direction gpio)) (text_in ∷ [])
      ++ (write_file (edge gpio) (os_open (edge gpio)) (text_both ∷ [])
          ++ (opened (value gpio) (os_open (value gpio)) ∷ []))

  configure_all : List ℕ → List Access
  configure_all [] = []
  configure_all (g ∷ gs) = configure g ++ configure_all gs

  -- What `gpios_init` leaves in `gpios`.
  unfoldable pub gpios_init : Gpios
  gpios_init = record {
    led_fd = os_open (value power_led_gpio);
    button_fds = map (λ g. os_open (value g)) button_gpios;
  }

  -- What `gpios_init` does on the way, in order.
  pub gpios_init_accesses : List Access
  gpios_init_accesses =
      write_file unexport (os_open unexport) numbers
      ++ (write_file export (os_open export) (numbers ++ (print_nat button3_gpio ∷ []))
          ++ (write_file (direction power_led_gpio) (os_open (direction power_led_gpio))
                (text_out ∷ [])
              ++ (opened (value power_led_gpio) (os_open (value power_led_gpio)) ∷ []
                  ++ (configure_all button_gpios
                      ++ map (λ g. drained (os_open (value g))) button_gpios))))

-- `set_led`
unfoldable pub set_led : Gpios → Bool → List Call
set_led g on = if is_fd g.led_fd then write g.led_fd ((if on then b'1' else b'0') ∷ []) ∷ [] else []

-- `is_button_pressed`, given the read of the button's value file.
unfoldable pub is_button_pressed : Option (List ℕ) → ℕ → Bool
is_button_pressed bytes junk = first_byte bytes junk == b'1'
