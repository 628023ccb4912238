-- ===== src/FanDriver/System.antt =====
-- The driver as a transition system: the timer fires while it is armed, and user space writes to the
-- two attributes. Handlers run to completion.
use csel_workspace.Prelude.{ℕ, ◌≡◌, Bool, true, false, Option, some, List, [], ◌∷◌}
use csel_workspace.Prelude.Int.{ℤ}
use csel_workspace.FanDriver.{
  FanCtrl, Call, mod_timer, del_timer_sync, gpio_set_value, Thermal, fan_toggle_timer,
  frequency_store, manual_mode_store,
}
use csel_workspace.FanDriver.Probe.{ProbeEnv, fan_ctrl_probe}

-- The device with what its calls have done outside: whether its timer is pending, and the level of
-- its pin.
pub record System : Type 0 where
  pub fc : FanCtrl
  pub armed : Bool
  pub level : ℕ

-- `mod_timer` makes the timer pending and `del_timer_sync` removes it.
pub armed_after : Bool → List Call → Bool
armed_after b [] = b
armed_after b (mod_timer p ∷ cs) = armed_after true cs
armed_after b (del_timer_sync ∷ cs) = armed_after false cs
armed_after b (_ ∷ cs) = armed_after b cs

pub level_after : ℕ → List Call → ℕ
level_after v [] = v
level_after v (gpio_set_value p w ∷ cs) = level_after w cs
level_after v (_ ∷ cs) = level_after v cs

-- The system that a run of calls leads to.
unfoldable pub after : Bool → ℕ → FanCtrl → List Call → System
unfolding armed_after level_after
after b v fc calls = record { fc = fc; armed = armed_after b calls; level = level_after v calls }

-- A timer that fires is no longer pending when its callback runs.
pub data Step (s : System) : System → Type 0 where
  tick :
      (th : Thermal) {fc : FanCtrl} {calls : List Call}
      → s.armed ≡ true
      → fan_toggle_timer s.fc th ≡ some (fc, calls)
      → Step s (after false s.level fc calls)
  write_mode :
      (b : Option Bool) (count : ℕ) → Step s (record s { fc = (manual_mode_store s.fc b count).0 })
  write_frequency :
      (f : Option ℕ) (count : ℕ) {fc : FanCtrl} {calls : List Call} {ret : ℤ}
      → frequency_store s.fc f count ≡ some (fc, calls, ret)
      → Step s (after s.armed s.level fc calls)

-- States that a bound device can come to.
pub data Reach : System → Type 0 where
  bound :
      (env : ProbeEnv) {fc : FanCtrl} {calls : List Call} {ret : ℤ}
      → fan_ctrl_probe env ≡ some (ret, calls, some fc)
      → Reach (after false 0 fc calls)
  later : {s t : System} → Reach s → Step s t → Reach t
