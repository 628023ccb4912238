-- ===== src/FanDriver.antt =====
-- src/07_miniproj/fan_driver/skeleton.c: the kernel driver that blinks the fan's GPIO at a frequency
-- taken from the CPU temperature, or written through sysfs in manual mode.
-- Kernel functions are not modelled: a handler is given what they return, and lists its calls.
pub mod Frequency
pub mod Probe
pub mod System
pub mod Safety
pub mod Stopped
pub mod Store
pub mod Sysfs
mod Tests
use Prim.Native.Nat.{bit_xor}
use csel_workspace.Prelude.{
  ℕ, ◌+◌, ◌*◌, ◌/◌, ◌%◌, ◌^◌, Bool, true, false, Option, none, some, List, [], ◌∷◌, ◌==◌, ltb,
  if◌then◌else◌,
}
use csel_workspace.Prelude.Int.{ℤ, pos, minus, ltb_ℤ}
use csel_workspace.Prelude.Errno.{eperm, einval}

-- `struct fan_ctrl`, less the kernel's own objects (zone, timer, device, lock).
pub record FanCtrl : Type 0 where
  pub gpio_pin : ℤ
  pub gpio_state : ℕ
  pub manual_mode : Bool
  pub frequency : ℕ  -- u32

-- The calls that change something outside the driver. `gpio_request` keeps what was returned, and
-- `mod_timer` the milliseconds handed to `msecs_to_jiffies`.
pub data Call : Type 0 where
  gpio_request : ℤ → ℤ → Call
  gpio_direction_output : ℤ → ℕ → Call
  gpio_set_value : ℤ → ℕ → Call
  gpio_free : ℤ → Call
  timer_setup : Call
  mod_timer : ℕ → Call
  del_timer_sync : Call

-- What `thermal_zone_get_temp` answers: an error number, or millidegrees.
pub data Thermal : Type 0 where
  failed : ℕ → Thermal
  reading : ℤ → Thermal

-- The lookup table, its tests in the order of the source.
unfoldable pub temp_to_freq : ℤ → ℕ
temp_to_freq temp_mc =
    if ltb_ℤ temp_mc (pos 35000)
    then 2
    else if ltb_ℤ (pos 40000) temp_mc
    then 5
    else if ltb_ℤ temp_mc (pos 45000)
    then 10
    else 20

-- `1000 / (2 * freq)` in u32; `none` is a division by zero.
unfoldable pub period_ms : ℕ → Option ℕ
period_ms freq = let d = (2 * freq) % 2 ^ 32 in if d == 0 then none else some (1000 / d)

-- `mod_timer(jiffies + msecs_to_jiffies(period))` behind the calls already made.
unfoldable pub rearm : FanCtrl → Call → ℕ → Option (FanCtrl × List Call)
unfolding period_ms
rearm fc done freq = elim (period_ms freq) [
  | none ↦ none
  | some p ↦ some (fc, done ∷ mod_timer p ∷ [])
]

-- The part of the callback that samples the temperature in automatic mode.
unfoldable pub sample : FanCtrl → Thermal → FanCtrl
unfolding temp_to_freq
sample fc (failed e) = fc
sample fc (reading t) = if fc.manual_mode then fc else record fc { frequency = temp_to_freq t }

-- The part of the callback that drives the pin: off for good at frequency 0, else toggled.
unfoldable pub drive : FanCtrl → Option (FanCtrl × List Call)
unfolding rearm
drive fc =
    if fc.frequency == 0
    then some (record fc { gpio_state = 0 }, gpio_set_value fc.gpio_pin 0 ∷ [])
    else let s = bit_xor fc.gpio_state 1 in
      rearm (record fc { gpio_state = s }) (gpio_set_value fc.gpio_pin s) fc.frequency

-- `fan_toggle_timer`; `none` is the fault of `period_ms`.
unfoldable pub fan_toggle_timer : FanCtrl → Thermal → Option (FanCtrl × List Call)
unfolding sample drive
fan_toggle_timer fc th = drive (sample fc th)

-- `manual_mode_store`, given what `kstrtobool` makes of the text.
unfoldable pub manual_mode_store : FanCtrl → Option Bool → ℕ → FanCtrl × ℤ
manual_mode_store fc none count = (fc, minus einval)
manual_mode_store fc (some val) count = (record fc { manual_mode = val }, pos count)

-- The end of `frequency_store`, after the lock is dropped.
unfoldable pub apply_frequency : FanCtrl → Option (FanCtrl × List Call)
apply_frequency fc =
    if fc.frequency == 0
    then some (record fc { gpio_state = 0 }, gpio_set_value fc.gpio_pin 0 ∷ [])
    else elim (period_ms fc.frequency) [ none ↦ none | some p ↦ some (fc, mod_timer p ∷ []) ]

with_count : ℕ → Option (FanCtrl × List Call) → Option (FanCtrl × List Call × ℤ)
with_count count none = none
with_count count (some (fc, calls)) = some (fc, calls, pos count)

-- `frequency_store`, given what `kstrtou32` makes of the text.
unfoldable pub frequency_store : FanCtrl → Option ℕ → ℕ → Option (FanCtrl × List Call × ℤ)
unfolding apply_frequency with_count period_ms
frequency_store fc none count = some (fc, [], minus einval)
frequency_store fc (some val) count =
    if fc.manual_mode
    then with_count count (apply_frequency (record fc { frequency = val }))
    else some (fc, [], minus eperm)

-- `fan_ctrl_remove`.
unfoldable pub fan_ctrl_remove : FanCtrl → List Call × ℤ
fan_ctrl_remove fc =
    (del_timer_sync ∷ gpio_set_value fc.gpio_pin 0 ∷ gpio_free fc.gpio_pin ∷ [], pos 0)
