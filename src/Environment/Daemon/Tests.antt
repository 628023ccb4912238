-- ===== src/Environment/Daemon/Tests.antt =====
-- Runs of the daemon, and an example of its theorem.
use csel_workspace.Prelude.{◌+◌, ◌≡◌, refl, true, false, some, [], ◌∷◌, arith}
use csel_workspace.Prelude.Int.{pos, negsuc}
use csel_workspace.Environment.Daemon.{
  other, Process, set_up, fork_process, exited, finished, redirect, lowest_free, close_all,
  process_main, daemon_main,
}
use csel_workspace.Environment.Daemon.Started.{granting, IsDaemon, daemon_main-IsDaemon}

-- A shell's job, with ten descriptors on other files.
abbrev job : Process
job = record {
  leader = true;
  terminal = true;
  caught = [];
  mask = 18;
  cwd_root = false;
  fds = λ n. some (other n);
  chrooted = false;
  egid = 0;
  euid = 0;
  signal_catched = 0;
}

-- The parent ends at once, and so does a process without /dev/null.
test_parent : daemon_main (record (granting 1 8 2 3 0 []) { fork1 = pos 77 }) job ≡ exited 0
unfolding daemon_main fork_process
test_parent = refl

test_no_null : process_main (record (granting 1 8 2 3 0 []) { null_ok = false }) job ≡ exited 1
unfolding process_main set_up redirect
test_no_null = refl

-- When `sysconf` reports no limit nothing is closed, and no descriptor is free.
test_no_limit : process_main (record (granting 1 8 2 3 0 []) { open_max = negsuc 0 }) job ≡ exited 1
unfolding process_main set_up redirect lowest_free close_all
test_no_limit = refl

-- A signal before the first sleep, three in a sleep, one in the next and one in the last.
daemon_main-IsDaemon_example :
    (q : Process) × (daemon_main (granting 1 8 2 3 1 ((12, 3) ∷ (5, 1) ∷ (0, 1) ∷ [])) job
      ≡ finished q)
    × IsDaemon job q 8 2 3 (1 + 4 + 1) 5
daemon_main-IsDaemon_example =
    daemon_main-IsDaemon 1 8 2 3 1 1 ((12, 3) ∷ (5, 1) ∷ []) [] job 5 (omega arith) refl
