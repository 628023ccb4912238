-- ===== src/FanDriver/Stopped.antt =====
-- A fan that stopped in automatic mode.
use csel_workspace.Prelude.{◌≡◌, refl, false, some, none, arith}
use csel_workspace.FanDriver.{frequency_store}
use csel_workspace.FanDriver.System.{System, after, Step, tick, write_mode, write_frequency, Reach}
use csel_workspace.FanDriver.Safety.{Reach-Inv}

-- Steps taken from automatic mode: each one starts there.
pub data AutoRun (s : System) : System → Type 0 where
  here : AutoRun s s
  next : {t u : System} → AutoRun s t → t.fc.manual_mode ≡ false → Step t u → AutoRun s u

stopped-Step :
    {t u : System}
    → t.armed ≡ false
    → t.fc.manual_mode ≡ false
    → Step t u
    → (u.armed ≡ false) × (u.level ≡ t.level)
unfolding frequency_store after
stopped-Step a m (tick th on e) = ground arith
stopped-Step a m (write_mode b count) = (a, refl)
stopped-Step a m (write_frequency none count e) = ground arith
stopped-Step a m (write_frequency (some f) count e) = ground arith

stopped-AutoRun :
    {s t : System} → s.armed ≡ false → AutoRun s t → (t.armed ≡ false) × (t.level ≡ s.level)
stopped-AutoRun a here = ground arith
stopped-AutoRun a (next r m st) =
    ground (arith, stopped-AutoRun a r, stopped-Step (stopped-AutoRun a r).0 m st)

-- If the driver comes to a state with no pending timer, then for as long as it stays in automatic
-- mode the timer is never armed again and the fan stays off, whatever the temperature is.
pub stopped_in_auto :
    {s t : System} → Reach s → s.armed ≡ false → AutoRun s t → (t.armed ≡ false) × (t.level ≡ 0)
stopped_in_auto r a run = ground (arith, stopped-AutoRun a run, Reach-Inv r)
