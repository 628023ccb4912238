-- ===== src/FanDriver/Store.antt =====
-- Every branch of `frequency_store`.
use csel_workspace.Prelude.{
  ℕ, ◌≡◌, ◌≢◌, refl, true, false, some, none, [], ◌∷◌, arith, ◌*◌, ◌/◌, ◌%◌, ◌^◌, ◌<◌,
}
use csel_workspace.Prelude.Int.{pos, minus}
use csel_workspace.Prelude.Errno.{eperm, einval}
use csel_workspace.FanDriver.{FanCtrl, mod_timer, gpio_set_value, frequency_store}

pub frequency_store_cases :
    (fc : FanCtrl) (val count : ℕ)
    → val < 2 ^ 32
    → (frequency_store fc none count ≡ some (fc, [], minus einval))
      × (fc.manual_mode ≡ false → frequency_store fc (some val) count ≡ some (fc, [], minus eperm))
      × (fc.manual_mode ≡ true
          → val ≡ 0
          → frequency_store fc (some val) count
            ≡ some (
              record fc { frequency = 0; gpio_state = 0 },
              gpio_set_value fc.gpio_pin 0 ∷ [],
              pos count,
            ))
      × (fc.manual_mode ≡ true → val ≡ 2 ^ 31 → frequency_store fc (some val) count ≡ none)
      × (fc.manual_mode ≡ true
          → val ≢ 0
          → val ≢ 2 ^ 31
          → frequency_store fc (some val) count
            ≡ some (
              record fc { frequency = val },
              mod_timer (1000 / ((2 * val) % 2 ^ 32)) ∷ [],
              pos count,
            ))
unfolding frequency_store
frequency_store_cases fc val count h =
    (refl, λ m. ground arith, λ m z. ground arith, λ m z. ground arith, λ m z k. ground arith)
