-- ===== src/FanDaemon/Buttons.antt =====
-- What a press and a release of each button do.
use Prim.Native.Nat.{max}
use csel_workspace.Prelude.{
  ℕ, ◌+◌, ◌-◌, ◌^◌, ◌<◌, ◌≡◌, true, false, not, [], ◌∷◌, ◌++◌, min, if◌then◌else◌, arith,
}
use csel_workspace.Prelude.Int.{ℤ, pos}
use csel_workspace.FanDriver.{FanCtrl}
use csel_workspace.FanDriver.Sysfs.{frequency_show}
use csel_workspace.FanDaemon.Calls.{write}
use csel_workspace.FanDaemon.Fan.{fan_toggle_mode, fan_set_frequency}
use csel_workspace.FanDaemon.FanLaws.{shown_bytes, step-show}
use csel_workspace.FanDaemon.Gpios.{set_led, is_button_pressed}
use csel_workspace.FanDaemon.Events.{
  EventType, button1_press, button2_press, button3_press, Daemon, Inputs, process_event,
}

module _ (d : Daemon) (i : Inputs) (fd : ℤ) where
  -- A release, of any button: the LED goes off and nothing else happens.
  abbrev Released : EventType → Type 0
  Released t = process_event d i t fd ≡ (d, set_led d.gpios false)

  -- What is written when the frequency is set, behind the LED.
  abbrev Sets : EventType → ℕ → Type 0
  Sets t f =
      process_event d i t fd
      ≡ (d, set_led d.gpios true ++ fan_set_frequency d.fan (pos f) i.reads.junk)

  -- The buttons with the driver in state `fc`, below the highest `int`. A release only switches the LED off. A press switches
  -- it on; in manual mode button 1 then writes the next frequency up to 100 and button 2 the previous
  -- one down to 1, in automatic mode neither writes any; button 3 changes the mode, and then writes the
  -- new one to the driver's file.
  pub button_cases :
      (fc : FanCtrl)
      → fc.frequency + 1 < 2 ^ 31
      → i.reads.freq ≡ shown_bytes (frequency_show fc)
      → let pressed = is_button_pressed i.button i.button_junk in
        (pressed ≡ false → Released button1_press × Released button2_press × Released button3_press)
        × (pressed ≡ true
            → d.fan.manual_mode ≡ true
            → Sets button1_press (min 100 (fc.frequency + 1))
              × Sets button2_press (max 1 (fc.frequency - 1)))
        × (pressed ≡ true
            → d.fan.manual_mode ≡ false
            → (process_event d i button1_press fd ≡ (d, set_led d.gpios true ++ []))
              × (process_event d i button2_press fd ≡ (d, set_led d.gpios true ++ [])))
        × (pressed ≡ true
            → process_event d i button3_press fd ≡ (
              record d { fan = record d.fan { manual_mode = not d.fan.manual_mode } },
              set_led d.gpios true
                  ++ (write d.fan.manual_fd ((if d.fan.manual_mode then b'0' else b'1') ∷ []) ∷ []),
            ))
  unfolding process_event fan_toggle_mode
  button_cases fc h shown = (
    λ r. (ground arith, ground arith, ground arith),
    λ p m. (
      ground (arith, (step-show d.fan fc i.reads.junk h).0),
      ground (arith, (step-show d.fan fc i.reads.junk h).1),
    ),
    λ p m. (ground arith, ground arith),
    λ p. ground arith,
  )
