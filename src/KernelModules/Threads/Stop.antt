-- ===== src/KernelModules/Threads/Stop.antt =====
-- The two threads end when the module is unloaded.
use csel_workspace.Prelude.{ℕ, ◌+◌, ◌-◌, ◌≤◌, ◌≡◌, refl, true, List, [], ◌∷◌, arith}
use csel_workspace.KernelModules.Threads.{
  First, test_1, asleep_1, notify_1, wake_1, ended_1, Second, test_2, wait_2, read_2, reset_2,
  ended_2, State, step_first, step_second, Turn, turn_1, turn_2, stop_first, stop_second, take_turn,
  run, skeleton_exit,
}

-- How many steps a thread that should stop has left.
abbrev left_1 : First → ℕ
left_1 test_1 = 1
left_1 asleep_1 = 4
left_1 notify_1 = 3
left_1 wake_1 = 2
left_1 ended_1 = 0

abbrev left_2 : Second → ℕ
left_2 test_2 = 1
left_2 wait_2 = 4
left_2 read_2 = 3
left_2 reset_2 = 2
left_2 ended_2 = 0

-- The turns of each thread.
abbrev pub turns_1 : List Turn → ℕ
turns_1 [] = 0
turns_1 (turn_1 ∷ turns) = 1 + turns_1 turns
turns_1 (_ ∷ turns) = turns_1 turns

abbrev pub turns_2 : List Turn → ℕ
turns_2 [] = 0
turns_2 (turn_2 ∷ turns) = 1 + turns_2 turns
turns_2 (_ ∷ turns) = turns_2 turns

-- The thread has been told to stop, and has `k` steps left at most.
record StopsFirst (k : ℕ) (s : State) : Type 0 where
  flag : s.stop_1 ≡ true
  left : left_1 s.first ≤ k

record StopsSecond (k : ℕ) (s : State) : Type 0 where
  flag : s.stop_2 ≡ true
  left : left_2 s.second ≤ k

first_steps : (k : ℕ) (s : State) → StopsFirst k s → StopsFirst (k - 1) (step_first s)
unfolding step_first
first_steps k s h = record { flag = ground (arith, h.flag); left = ground (arith, h.flag, h.left) }

second_steps : (k : ℕ) (s : State) → StopsSecond k s → StopsSecond (k - 1) (step_second s)
unfolding step_second
second_steps k s h = record { flag = ground (arith, h.flag); left = ground (arith, h.flag, h.left) }

-- A step of the other thread does not change that.
first_aside : (k : ℕ) (s : State) → StopsFirst k s → StopsFirst k (step_second s)
unfolding step_second
first_aside k s h = record { flag = ground (arith, h.flag); left = ground (arith, h.left) }

second_aside : (k : ℕ) (s : State) → StopsSecond k s → StopsSecond k (step_first s)
unfolding step_first
second_aside k s h = record { flag = ground (arith, h.flag); left = ground (arith, h.left) }

first_runs :
    (turns : List Turn) (k : ℕ) (s : State)
    → StopsFirst k s
    → StopsFirst (k - turns_1 turns) (run turns s)
unfolding run take_turn
first_runs [] k s h = record { flag = h.flag; left = omega (arith, h.left) }
first_runs (turn_1 ∷ turns) k s h =
    let r = first_runs turns (k - 1) (step_first s) (first_steps k s h) in
    record { flag = r.flag; left = omega (arith, r.left) }
first_runs (turn_2 ∷ turns) k s h = first_runs turns k (step_second s) (first_aside k s h)
first_runs (stop_first ∷ turns) k s h =
    first_runs turns k (record s { stop_1 = true }) (record { flag = refl; left = h.left })
first_runs (stop_second ∷ turns) k s h =
    first_runs turns k (record s { stop_2 = true }) (record { flag = h.flag; left = h.left })

second_runs :
    (turns : List Turn) (k : ℕ) (s : State)
    → StopsSecond k s
    → StopsSecond (k - turns_2 turns) (run turns s)
unfolding run take_turn
second_runs [] k s h = record { flag = h.flag; left = omega (arith, h.left) }
second_runs (turn_1 ∷ turns) k s h = second_runs turns k (step_first s) (second_aside k s h)
second_runs (turn_2 ∷ turns) k s h =
    let r = second_runs turns (k - 1) (step_second s) (second_steps k s h) in
    record { flag = r.flag; left = omega (arith, r.left) }
second_runs (stop_first ∷ turns) k s h =
    second_runs turns k (record s { stop_1 = true }) (record { flag = h.flag; left = h.left })
second_runs (stop_second ∷ turns) k s h =
    second_runs turns k (record s { stop_2 = true }) (record { flag = refl; left = h.left })

at_most_1 : (f : First) → left_1 f ≤ 4
at_most_1 f = ground arith

at_most_2 : (f : Second) → left_2 f ≤ 4
at_most_2 f = ground arith

ended_first : (k : ℕ) (s : State) → k ≡ 0 → StopsFirst k s → s.first ≡ ended_1
ended_first k s e h = ground (arith, e, h.left)

ended_second : (k : ℕ) (s : State) → k ≡ 0 → StopsSecond k s → s.second ≡ ended_2
ended_second k s e h = ground (arith, e, h.left)

-- Wherever the two threads stand when the module is unloaded, and in whatever order they take their
-- turns: four turns of the first thread let the first `kthread_stop` return, four of the second the
-- other, and then both threads have ended.
pub exit_ends :
    (waits_1 waits_2 : List Turn) (s : State)
    → 4 ≤ turns_1 waits_1
    → 4 ≤ turns_2 waits_2
    → ((skeleton_exit waits_1 waits_2 s).first ≡ ended_1)
      × ((skeleton_exit waits_1 waits_2 s).second ≡ ended_2)
unfolding skeleton_exit take_turn
exit_ends waits_1 waits_2 s n m =
    let told : StopsFirst 4 (take_turn stop_first s) = record {
      flag = refl;
      left = at_most_1 s.first;
    } in
    let one = first_runs waits_1 4 (take_turn stop_first s) told in
    let middle = run waits_1 (take_turn stop_first s) in
    let kept : StopsFirst (4 - turns_1 waits_1) (take_turn stop_second middle) = record {
      flag = one.flag;
      left = one.left;
    } in
    let too : StopsSecond 4 (take_turn stop_second middle) = record {
      flag = refl;
      left = at_most_2 middle.second;
    } in
    (
      ended_first _ _ (omega (arith, n)) (first_runs waits_2 _ _ kept),
      ended_second _ _ (omega (arith, m)) (second_runs waits_2 4 _ too),
    )
