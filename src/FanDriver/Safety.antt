-- ===== src/FanDriver/Safety.antt =====
-- What holds of the driver in every state that it can come to.
use Prim.Native.Nat.{bit_xor}
use csel_workspace.Prelude.{
  ◌-◌, ℕ, zero, suc, ◌≡◌, ◌≤◌, Bool, false, Option, some, none, List, arith, refl,
}
use csel_workspace.Prelude.Int.{ℤ}
use csel_workspace.FanDriver.{
  FanCtrl, Call, Thermal, reading, failed, fan_toggle_timer, frequency_store, manual_mode_store,
  sample, drive, rearm, period_ms,
}
use csel_workspace.FanDriver.Probe.{ProbeEnv, fan_ctrl_probe, fan_ctrl_probe-Started, fresh}
use csel_workspace.FanDriver.System.{
  System, after, Step, tick, write_mode, write_frequency, Reach, bound, later,
}

-- The pin carries the recorded state, which is 0 or 1; a driver with no pending timer has its fan
-- off and frequency 0.
pub record Inv (s : System) : Type 0 where
  pub level_is_state : s.level ≡ s.fc.gpio_state
  pub binary : s.fc.gpio_state ≤ 1
  pub stopped_is_low : s.armed ≡ false → (s.fc.gpio_state ≡ 0) × (s.fc.frequency ≡ 0)

bit_xor-one : (s : ℕ) → s ≤ 1 → bit_xor s 1 ≡ 1 - s
bit_xor-one zero h = refl
bit_xor-one (suc zero) h = refl
bit_xor-one (suc (suc s)) h = absurd (omega arith)

drive-Inv :
    (fc : FanCtrl) (v : ℕ) {fc' : FanCtrl} {calls : List Call}
    → fc.gpio_state ≤ 1
    → drive fc ≡ some (fc', calls)
    → Inv (after false v fc' calls)
unfolding drive rearm period_ms after
drive-Inv fc v h e = ground (arith, bit_xor-one fc.gpio_state h)

sample-gpio_state : (fc : FanCtrl) (th : Thermal) → (sample fc th).gpio_state ≡ fc.gpio_state
unfolding sample
sample-gpio_state fc (failed e) = refl
sample-gpio_state fc (reading t) = ground arith

-- The callback keeps the invariant whatever the temperature.
pub toggle-Inv :
    (s : System) (th : Thermal) {fc : FanCtrl} {calls : List Call}
    → Inv s
    → fan_toggle_timer s.fc th ≡ some (fc, calls)
    → Inv (after false s.level fc calls)
unfolding fan_toggle_timer
toggle-Inv s th i e = drive-Inv (sample s.fc th) s.level (rw (sample-gpio_state s.fc th) i.binary) e

store_frequency-Inv :
    (s : System) (f : Option ℕ) (count : ℕ) {fc : FanCtrl} {calls : List Call} {ret : ℤ}
    → Inv s
    → frequency_store s.fc f count ≡ some (fc, calls, ret)
    → Inv (after s.armed s.level fc calls)
unfolding frequency_store after
store_frequency-Inv s none count i e = ground arith
store_frequency-Inv s (some f) count i e = ground arith

store_mode-Inv :
    (s : System) (b : Option Bool) (count : ℕ)
    → Inv s
    → Inv (record s { fc = (manual_mode_store s.fc b count).0 })
unfolding manual_mode_store
store_mode-Inv s none count i = i
store_mode-Inv s (some b) count i = ground arith

Step-Inv : {s t : System} → Inv s → Step s t → Inv t
Step-Inv {s} i (tick th a e) = toggle-Inv s th i e
Step-Inv {s} i (write_mode b count) = store_mode-Inv s b count i
Step-Inv {s} i (write_frequency f count e) = store_frequency-Inv s f count i e

bound-Inv :
    (env : ProbeEnv) {fc : FanCtrl} {calls : List Call} {ret : ℤ}
    → fan_ctrl_probe env ≡ some (ret, calls, some fc)
    → Inv (after false 0 fc calls)
unfolding after fan_toggle_timer
bound-Inv env e =
    let (more, run, shape) = fan_ctrl_probe-Started env e in
    rw shape (drive-Inv (sample (fresh env.named_gpio) env.first) 0 (fresh_state env) run)
  where
    fresh_state : (env : ProbeEnv) → (sample (fresh env.named_gpio) env.first).gpio_state ≤ 1
    fresh_state env = rw (sample-gpio_state (fresh env.named_gpio) env.first) (omega arith)

-- In every state that a bound driver comes to, by any writes and any temperatures: the pin carries
-- the recorded state, the state is 0 or 1, and if no timer is pending then the fan is off and the
-- frequency is 0, so that the fan cannot stay switched on unattended.
pub Reach-Inv : {s : System} → Reach s → Inv s
Reach-Inv (bound env e) = bound-Inv env e
Reach-Inv (later r st) = Step-Inv (Reach-Inv r) st
