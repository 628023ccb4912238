-- ===== src/KernelModules/Threads.antt =====
-- src/02_modules/exercice07/skeleton.c: a kernel thread that notifies another every five seconds;
-- and exercice06/skeleton.c, which has the first thread alone.
pub mod Stop
pub mod Notified
use csel_workspace.Prelude.{ℕ, ◌+◌, ◌||◌, Bool, true, false, List, [], ◌∷◌, if◌then◌else◌}
use csel_workspace.Prelude.Int.{ℤ, pos, minus}
use csel_workspace.Prelude.Errno.{efault}

-- Where the first thread stands: before the test of its loop, in `ssleep`, before `atomic_set`,
-- before `wake_up_interruptible`, or behind its end.
pub data First : Type 0 where
  test_1 asleep_1 notify_1 wake_1 ended_1 : First

-- Where the second thread stands: before the test of its loop, in `wait_event_interruptible`, before
-- `atomic_read`, before the `atomic_set` that resets the condition, or behind its end.
pub data Second : Type 0 where
  test_2 wait_2 read_2 reset_2 ended_2 : Second

-- `is_kicked`, where the threads stand and whether they should stop, and how many notifications the
-- first has logged and the second.
pub record State : Type 0 where
  pub first : First
  pub second : Second
  pub stop_1 : Bool
  pub stop_2 : Bool
  pub is_kicked : Bool
  pub sent : ℕ
  pub received : ℕ

-- A step of `thread_func_1`.
unfoldable pub step_first : State → State
step_first s = elim s.first [
  | test_1 ↦ record s { first = if s.stop_1 then ended_1 else asleep_1 }
  | asleep_1 ↦ record s { first = notify_1; sent = s.sent + 1 }
  | notify_1 ↦ record s { first = wake_1; is_kicked = true }
  | wake_1 ↦ record s { first = test_1 }
  | ended_1 ↦ s
]

-- A step of `thread_func_2`; the wait goes on until its condition holds.
unfoldable pub step_second : State → State
step_second s = elim s.second [
  | test_2 ↦ record s { second = if s.stop_2 then ended_2 else wait_2 }
  | wait_2 ↦ record s { second = if s.is_kicked || s.stop_2 then read_2 else wait_2 }
  | read_2 ↦ record s {
    second = if s.is_kicked then reset_2 else test_2;
    received = s.received + (if s.is_kicked then 1 else 0);
  }
  | reset_2 ↦ record s { second = test_2; is_kicked = false }
  | ended_2 ↦ s
]

-- What happens next: a step of a thread, or `kthread_stop` of one sets its flag.
pub data Turn : Type 0 where
  turn_1 turn_2 stop_first stop_second : Turn

unfoldable pub take_turn : Turn → State → State
take_turn turn_1 s = step_first s
take_turn turn_2 s = step_second s
take_turn stop_first s = record s { stop_1 = true }
take_turn stop_second s = record s { stop_2 = true }

unfoldable pub run : List Turn → State → State
run [] s = s
run (t ∷ turns) s = run turns (take_turn t s)

-- The state in which `skeleton_init` starts the threads.
abbrev pub started : State
started = record {
  first = test_1;
  second = test_2;
  stop_1 = false;
  stop_2 = false;
  is_kicked = false;
  sent = 0;
  received = 0;
}

-- `skeleton_init`, given whether `kthread_run` can start each thread: the result, and whether the
-- first and the second run when it returns.
unfoldable pub skeleton_init : Bool → Bool → ℤ × Bool × Bool
skeleton_init ok_1 ok_2 =
    if ok_1
    then (if ok_2 then (pos 0, true, true) else (minus efault, true, false))
    else (minus efault, false, false)

-- `skeleton_exit`: the turns that the threads take while `kthread_stop` waits for the first to end,
-- and those while it waits for the second.
unfoldable pub skeleton_exit : List Turn → List Turn → State → State
unfolding run
skeleton_exit waits_1 waits_2 s =
    run waits_2 (take_turn stop_second (run waits_1 (take_turn stop_first s)))
