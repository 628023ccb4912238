-- ===== src/SillyLed.antt =====
-- src/04_file_systems/silly_led/silly_led_control.c: a LED that a busy loop keeps on for 2 percent
-- of its period.
pub mod Duty
mod Tests
use csel_workspace.Prelude.{
  ℕ, zero, suc, ◌+◌, ◌-◌, ◌*◌, ◌/◌, ◌%◌, Bool, true, false, ◌&&◌, ◌||◌, Option, none, some, List,
  [], ◌∷◌, ◌++◌, ◌==◌, if◌then◌else◌,
}
use csel_workspace.Prelude.Int.{ℤ, pos, negsuc, minus, ltb_ℤ, ◌+ℤ◌, ◌-ℤ◌, ◌*ℤ◌}
use csel_workspace.Prelude.Machine.{to_int}
use csel_workspace.Prelude.Decimal.{atoi}
use csel_workspace.SysfsPin.{PinFile, PinCall, wrote, open_output}

abbrev pub duty : ℤ
duty = pos 2

-- Division of C, which truncates towards 0.
unfoldable pub div_trunc : ℤ → ℕ → ℤ
div_trunc (pos a) b = pos (a / b)
div_trunc (negsuc a) b = minus (suc a / b)

-- The period in nanoseconds, given `argv[1]` if there is one.
unfoldable pub period_ns : Option (List ℕ) → ℤ
period_ns none = pos 1000 *ℤ pos 1000000
period_ns (some arg) = to_int (atoi arg) *ℤ pos 1000000

-- `p1` and `p2`
unfoldable pub phase_on : ℤ → ℤ
phase_on period = div_trunc period 100 *ℤ duty

unfoldable pub phase_off : ℤ → ℤ
phase_off period = period -ℤ phase_on period

-- `struct timespec`
pub record Timespec : Type 0 where
  pub tv_sec : ℕ
  pub tv_nsec : ℕ

unfoldable pub time_delta : Timespec → Timespec → ℤ
time_delta t1 t2 =
    (pos t2.tv_sec -ℤ pos t1.tv_sec) *ℤ pos 1000000000 +ℤ (pos t2.tv_nsec -ℤ pos t1.tv_nsec)

-- What the loop keeps: the time of the last toggle, and `k`, which is 0 while the LED is on.
pub record State : Type 0 where
  pub t1 : Timespec
  pub k : ℕ

-- A round of the loop at time `t2`, and the bytes written to the LED: `sizeof` counts the NUL.
unfoldable pub round : ℤ → ℤ → Timespec → State → State × Option (List ℕ)
round p1 p2 t2 s =
    let delta = time_delta s.t1 t2 in
    let reached = λ (p : ℤ). if ltb_ℤ delta p then false else true in
    let k = (s.k + 1) % 2 in
    if (s.k == 0 && reached p1) || (s.k == 1 && reached p2)
    then (record { t1 = t2; k = k }, some (if k == 0 then b'1' ∷ 0 ∷ [] else b'0' ∷ 0 ∷ []))
    else (s, none)

abbrev pub log : Timespec → Option (List ℕ) → List (Timespec × List ℕ) → List (Timespec × List ℕ)
log t2 none writes = writes
log t2 (some bytes) writes = (t2, bytes) ∷ writes

-- The loop, at the times that `clock_gettime` answers in turn; each write with its time.
unfoldable pub loop : ℤ → ℤ → List Timespec → State → State × List (Timespec × List ℕ)
loop p1 p2 [] s = (s, [])
loop p1 p2 (t2 ∷ times) s =
    let (s', written) = round p1 p2 t2 s in
    let (last, writes) = loop p1 p2 times s' in (last, log t2 written writes)

abbrev pub led : ℕ
led = 10

-- `open_led`
unfoldable pub open_led : (PinFile → ℤ) → ℤ × List PinCall
open_led opens = open_output opens led

-- `main`: the calls that set up the LED and switch it on, and the loop from the time `start` on.
unfoldable pub main :
    (PinFile → ℤ)
    → Option (List ℕ)
    → Timespec
    → List Timespec
    → List PinCall × State × List (Timespec × List ℕ)
main opens arg start times =
    let period = period_ns arg in
    let (fd, setup) = open_led opens in
    let (last, writes) =
      loop (phase_on period) (phase_off period) times (record { t1 = start; k = 0 }) in
    (setup ++ (wrote fd (b'1' ∷ 0 ∷ []) ∷ []), last, writes)
