-- ===== src/Environment/Daemon.antt =====
-- src/01_environment/daemon/daemon.c, and src/01_environment/process/process.c, which is the same
-- program without its first three steps.
pub mod Descriptors
pub mod Started
mod Tests
use csel_workspace.Prelude.{
  ℕ, zero, suc, ◌+◌, Bool, true, false, not, ◌&&◌, Option, none, some, List, [], ◌∷◌, ◌==◌,
  if◌then◌else◌, ◌⊎◌, inl, inr,
}
use csel_workspace.Prelude.Int.{ℤ, pos, negsuc}

-- What a descriptor is open on.
pub data File : Type 0 where
  dev_null log : File
  other : ℕ → File

-- The descriptors of a process.
abbrev pub Fds : Type 0
Fds = ℕ → Option File

-- The signals that are caught: SIGHUP, SIGINT, SIGQUIT, SIGABRT, SIGTERM and SIGTSTP.
pub data Signal : Type 0 where
  hup int quit abrt term tstp : Signal

-- What the program changes of its process.
pub record Process : Type 0 where
  pub leader : Bool
  pub terminal : Bool
  pub caught : List Signal
  pub mask : ℕ
  pub cwd_root : Bool
  pub fds : Fds
  pub chrooted : Bool
  pub egid : ℕ
  pub euid : ℕ
  pub signal_catched : ℕ

-- What the system calls answer: the results of `fork` and `setsid`, whether other calls succeed, the
-- limit that `sysconf` reports and the size of the table of descriptors, the user and group of
-- "daemon", the number of signals caught from their set-up to the first `sleep`, and the answers of
-- `sleep`, each with the number of signals caught from its call to the next, or to the end.
pub record Answers : Type 0 where
  pub fork1 : ℤ
  pub setsid : ℤ
  pub fork2 : ℤ
  pub chdir_ok : Bool
  pub open_max : ℤ
  pub table : ℕ
  pub null_ok : Bool
  pub dup_ok : ℕ → Bool
  pub passwd : Option (ℕ × ℕ)
  pub chroot_ok : Bool
  pub setegid_ok : Bool
  pub seteuid_ok : Bool
  pub early : ℕ
  pub sleeps : List (ℕ × ℕ)

abbrev pub set_fd : Fds → ℕ → Option File → Fds
set_fd fds n file m = if m == n then file else fds m

-- `close` from `fd` down to 0.
unfoldable pub close_down : ℕ → Fds → Fds
close_down zero fds = set_fd fds 0 none
close_down (suc fd) fds = close_down fd (set_fd fds (suc fd) none)

unfoldable pub close_all : ℤ → Fds → Fds
unfolding close_down
close_all (pos n) fds = close_down n fds
close_all (negsuc n) fds = fds

-- The lowest descriptor from `n` on that is free, among the next `k`: it is what `open` brings.
unfoldable pub lowest_free : ℕ → ℕ → Fds → Option ℕ
lowest_free zero n fds = none
lowest_free (suc k) n fds = elim (fds n) [ none ↦ some n | some file ↦ lowest_free k (n + 1) fds ]

-- Step 8: /dev/null for stdin, stdout and stderr.
unfoldable pub redirect : Answers → Fds → Option Fds
redirect a fds = if not a.null_ok then none else elim (lowest_free a.table 0 fds) [
  | none ↦ none
  | some fd ↦
      let stdin = set_fd fds fd (some dev_null) in
      let stdout = set_fd stdin 1 (stdin 0) in
      if not (fd == 0)
      then none
      else if not (a.dup_ok 1)
      then none
      else if not (a.dup_ok 2)
      then none
      else some (set_fd stdout 2 (stdout 0))
]

-- `openlog` with LOG_NDELAY opens the connection to the log at once.
unfoldable pub openlog : Answers → Fds → Fds
openlog a fds = elim (lowest_free a.table 0 fds) [ none ↦ fds | some fd ↦ set_fd fds fd (some log) ]

-- Steps 10 to 12; `none` is `exit(1)`.
unfoldable pub drop_privileges : Answers → Process → Option Process
drop_privileges a p = elim a.passwd [
  | none ↦ none
  | some (uid, gid) ↦
      if not a.chroot_ok
      then none
      else if not a.setegid_ok
      then none
      else if not a.seteuid_ok
      then none
      else some (record p { chrooted = true; egid = gid; euid = uid })
]

-- The handler, and `n` runs of it.
unfoldable pub catch_signal : Process → Process
catch_signal p = record p { signal_catched = p.signal_catched + 1 }

unfoldable pub catch_signals : ℕ → Process → Process
unfolding catch_signal
catch_signals zero p = p
catch_signals (suc n) p = catch_signals n (catch_signal p)

-- Steps 4 to 12, which both programs have.
unfoldable pub set_up : Answers → Process → Option Process
set_up a p = if not a.chdir_ok then none else elim (redirect a (close_all a.open_max p.fds)) [
  | none ↦ none
  | some fds ↦ drop_privileges a (
      catch_signals a.early (record p {
        caught = hup ∷ int ∷ quit ∷ abrt ∷ term ∷ tstp ∷ [];
        mask = 23;
        cwd_root = true;
        fds = openlog a fds;
      }))
]

-- Step 13: `t = sleep(t)` until it is 0, with what `sleep` answers in turn: the rest of the time
-- when a signal cut it short. The numbers that it is called with, the process then, and whether the
-- loop has ended. Any number of signals is caught on the way.
unfoldable pub nap : ℕ → List (ℕ × ℕ) → Process → List ℕ × Process × Bool
nap t [] p = (t ∷ [], p, false)
nap t ((answer, signals) ∷ answers) p =
    let q = catch_signals signals p in
    let rest = nap answer answers q in
    if answer == 0 then (t ∷ [], q, true) else (t ∷ rest.0, rest.1, rest.2)

-- How a program ends, or that it still sleeps; `closelog` closes the log.
pub data Result : Type 0 where
  exited : ℕ → Result
  sleeping finished : Process → Result

unfoldable pub fork_process : ℤ → Process → Process ⊎ ℕ
fork_process (negsuc n) p = inr 1
fork_process (pos zero) p = inl (record p { leader = false })
fork_process (pos (suc n)) p = inr 0

abbrev pub close_log : Option File → Option File
close_log none = none
close_log (some log) = none
close_log (some dev_null) = some dev_null
close_log (some (other n)) = some (other n)

unfoldable pub closelog : Process → Process
closelog p = record p { fds = λ n. close_log (p.fds n) }

-- `main` of process.c.
unfoldable pub process_main : Answers → Process → Result
process_main a p = elim (set_up a p) [
  | none ↦ exited 1
  | some q ↦
      let (calls, r, ended) = nap 30 a.sleeps q in
      if ended then finished (closelog r) else sleeping r
]

-- `main` of daemon.c. `setsid` makes a process that succeeds lead a session without a terminal.
unfoldable pub daemon_main : Answers → Process → Result
unfolding process_main
daemon_main a p = elim (fork_process a.fork1 p) [
  | inr status ↦ exited status
  | inl child ↦ elim a.setsid [
    | negsuc n ↦ exited 1
    | pos n ↦ elim (fork_process a.fork2 (record child { leader = true; terminal = false })) [
      | inr status ↦ exited status
      | inl grandchild ↦ process_main a grandchild
    ]
  ]
]
