-- ===== src/KernelModules/Threads/Notified.antt =====
-- How many notifications of the first thread the second logs.
use csel_workspace.Prelude.{ℕ, ◌+◌, ◌≤◌, Bool, true, false, List, [], ◌∷◌, arith}
use csel_workspace.KernelModules.Threads.{
  First, notify_1, Second, reset_2, State, step_first, step_second, Turn, turn_1, turn_2,
  stop_first, stop_second, take_turn, run, started,
}

-- A notification that is logged and not yet set, and one that is set and not yet read.
abbrev unset : First → ℕ
unset notify_1 = 1
unset _ = 0

abbrev unread : Bool → Second → ℕ
unread false _ = 0
unread true reset_2 = 0
unread true _ = 1

abbrev Fresh : State → Type 0
Fresh s = s.received + unset s.first + unread s.is_kicked s.second ≤ s.sent

first-Fresh : (s : State) → Fresh s → Fresh (step_first s)
unfolding step_first
first-Fresh s h = ground (arith, h)

second-Fresh : (s : State) → Fresh s → Fresh (step_second s)
unfolding step_second
second-Fresh s h = ground (arith, h)

run-Fresh : (turns : List Turn) (s : State) → Fresh s → Fresh (run turns s)
unfolding run take_turn
run-Fresh [] s h = h
run-Fresh (turn_1 ∷ turns) s h = run-Fresh turns (step_first s) (first-Fresh s h)
run-Fresh (turn_2 ∷ turns) s h = run-Fresh turns (step_second s) (second-Fresh s h)
run-Fresh (stop_first ∷ turns) s h = run-Fresh turns (record s { stop_1 = true }) h
run-Fresh (stop_second ∷ turns) s h = run-Fresh turns (record s { stop_2 = true }) h

-- In whatever order the threads take their turns, the second logs at most as many notifications as
-- the first.
pub received_le_sent : (turns : List Turn) → (run turns started).received ≤ (run turns started).sent
received_le_sent turns = omega (arith, run-Fresh turns started (omega arith))
