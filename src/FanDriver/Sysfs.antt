-- ===== src/FanDriver/Sysfs.antt =====
-- The `show` functions of the attributes: the text that a reader gets.
use csel_workspace.Prelude.{ℕ, List, ◌++◌, [], ◌∷◌, if◌then◌else◌}
use csel_workspace.Prelude.Int.{ℤ, minus}
use csel_workspace.Prelude.Decimal.{print_nat, print_int}
use csel_workspace.FanDriver.{FanCtrl, Thermal, failed, reading}

-- A text, or the negative value returned in its place.
pub data Shown : Type 0 where
  emit : List ℕ → Shown
  error : ℤ → Shown

abbrev newline : ℕ
newline = 10

unfoldable pub manual_mode_show : FanCtrl → Shown
manual_mode_show fc = emit (print_nat (if fc.manual_mode then 1 else 0) ++ (newline ∷ []))

unfoldable pub frequency_show : FanCtrl → Shown
frequency_show fc = emit (print_nat fc.frequency ++ (newline ∷ []))

-- `cpu_temp_show`, given what `thermal_zone_get_temp` answers.
unfoldable pub cpu_temp_show : Thermal → Shown
cpu_temp_show (failed e) = error (minus e)
cpu_temp_show (reading temp_mc) = emit (print_int temp_mc ++ (newline ∷ []))
