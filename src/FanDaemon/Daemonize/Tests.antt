-- ===== src/FanDaemon/Daemonize/Tests.antt =====
-- An example of the theorem on daemonize.
use csel_workspace.Prelude.{ℕ, ◌≡◌, refl, Option, some, none, true, false, ltb, if◌then◌else◌}
use csel_workspace.Prelude.Int.{pos}
use csel_workspace.FanDaemon.Daemonize.{
  Process, Answers, File, daemonize, returned, IsDaemon, daemonize-IsDaemon,
}

-- A process that a shell started, and the calls of its grandchild.
abbrev shell_fds : ℕ → Option File
shell_fds n = if ltb n 3 then some (File.other n) else none

abbrev started : Process
started = record { leader = false; terminal = true; cwd_root = false; mask = 18; fds = shell_fds }

abbrev grandchild : Answers
grandchild = record {
  fork1 = pos 0;
  setsid = pos 4711;
  fork2 = pos 0;
  chdir = pos 0;
  devnull = pos 3;
}

daemonize-IsDaemon_example :
    (q : Process) × (daemonize grandchild started ≡ returned q) × IsDaemon started 3 q
daemonize-IsDaemon_example = daemonize-IsDaemon grandchild started 3 refl refl refl refl refl refl
