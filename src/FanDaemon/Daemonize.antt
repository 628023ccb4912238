-- ===== src/FanDaemon/Daemonize.antt =====
-- `daemonize` of src/07_miniproj/daemon/main.c: what becomes of the process that calls it.
mod Tests
use csel_workspace.Prelude.{
  ℕ, ◌<◌, ◌≡◌, refl, ap, sym, ◌∙◌, Bool, true, false, Option, none, some, ◌==◌, ltb, if◌then◌else◌,
  arith, Bool-cases, inl, inr,
}
use csel_workspace.Prelude.Int.{ℤ, pos, negsuc, ltb_ℤ}

pub data File : Type 0 where
  dev_null : File
  other : ℕ → File

-- What `daemonize` changes of a process: whether it leads its session, whether the session has a
-- controlling terminal, whether its working directory is the root, its mask and its descriptors.
pub record Process : Type 0 where
  pub leader : Bool
  pub terminal : Bool
  pub cwd_root : Bool
  pub mask : ℕ
  pub fds : ℕ → Option File

-- What the system calls answer.
pub record Answers : Type 0 where
  pub fork1 : ℤ
  pub setsid : ℤ
  pub fork2 : ℤ
  pub chdir : ℤ
  pub devnull : ℤ

pub data Result : Type 0 where
  exited : ℕ → Result
  returned : Process → Result

-- The child of a `fork` leads no session, and a process that `setsid` succeeds for leads one that
-- has no terminal.
abbrev forked : Process → Process
forked p = record p { leader = false }

abbrev new_session : Process → Process
new_session p = record p { leader = true; terminal = false }

abbrev set_fd : (ℕ → Option File) → ℕ → Option File → ℕ → Option File
set_fd fds n file m = if m == n then file else fds m

-- `dup2`, which does nothing to a descriptor that it is to copy onto itself.
abbrev dup2 : (ℕ → Option File) → ℕ → ℕ → ℕ → Option File
dup2 fds old new = set_fd fds new (fds old)

-- The descriptors after `open("/dev/null")` returned `fd`, the three `dup2` and the `close`.
unfoldable pub redirect : (ℕ → Option File) → ℕ → ℕ → Option File
redirect fds fd n =
    let opened = set_fd fds fd (some dev_null) in
    let copied = dup2 (dup2 (dup2 opened fd 0) fd 1) fd 2 in
    if ltb 2 fd then set_fd copied fd none n else copied n

-- The end of `daemonize`, from `chdir` on.
unfoldable pub settle : Answers → Process → Result
settle a p = elim a.devnull [
  | negsuc n ↦ exited 1
  | pos fd ↦
      if ltb_ℤ a.chdir (pos 0)
      then exited 1
      else returned (record p { cwd_root = true; mask = 0; fds = redirect p.fds fd })
]

-- `daemonize`.
unfoldable pub daemonize : Answers → Process → Result
daemonize a p =
    if ltb_ℤ a.fork1 (pos 0)
    then exited 1
    else if ltb_ℤ (pos 0) a.fork1
    then exited 0
    else if ltb_ℤ a.setsid (pos 0)
    then exited 1
    else if ltb_ℤ a.fork2 (pos 0)
    then exited 1
    else if ltb_ℤ (pos 0) a.fork2
    then exited 0
    else settle a (forked (new_session (forked p)))

-- What a daemon is to be, seen from the process that it was started as and the descriptor that
-- `open` brought.
pub record IsDaemon (p : Process) (fd : ℕ) (q : Process) : Type 0 where
  no_leader : q.leader ≡ false
  no_terminal : q.terminal ≡ false
  in_root : q.cwd_root ≡ true
  no_mask : q.mask ≡ 0
  stdin : q.fds 0 ≡ some dev_null
  stdout : q.fds 1 ≡ some dev_null
  stderr : q.fds 2 ≡ some dev_null
  others : (n : ℕ) → 2 < n → q.fds n ≡ p.fds n

redirect_lem :
    (fds : ℕ → Option File) (fd : ℕ)
    → (redirect fds fd 0 ≡ some dev_null)
      × (redirect fds fd 1 ≡ some dev_null)
      × (redirect fds fd 2 ≡ some dev_null)
unfolding redirect
redirect_lem fds fd = (ground arith, ground arith, ground arith)

redirect_others :
    (fds : ℕ → Option File) (fd n : ℕ) → 2 < n → fds fd ≡ none → redirect fds fd n ≡ fds n
unfolding redirect
redirect_others fds fd n h free = elim (Bool-cases (n == fd)) [
  | inr differs ↦ ground (arith, h, differs)
  | inl same ↦
      let e : n ≡ fd = ground (arith, same) in
      ap (redirect fds fd) e ∙ (closed fd (omega (arith, h, e)) ∙ (sym free ∙ sym (ap fds e)))
]
  where
    closed : (fd : ℕ) → 2 < fd → redirect fds fd fd ≡ none
    closed fd h = ground arith

settle_returns :
    (a : Answers) (p : Process) (fd : ℕ)
    → ltb_ℤ a.chdir (pos 0) ≡ false
    → a.devnull ≡ pos fd
    → settle a p ≡ returned (record p { cwd_root = true; mask = 0; fds = redirect p.fds fd })
unfolding settle
settle_returns a p fd c opened = rw opened (rw c refl)

-- In the process that both forks answer with 0, when no call fails and `open` brings a descriptor
-- that is not in use: `daemonize` returns, and the process is a daemon. It leads no session and has
-- no controlling terminal, its directory is the root and its mask 0, the three standard descriptors
-- are /dev/null, and all other descriptors are as they were.
pub daemonize-IsDaemon :
    (a : Answers) (p : Process) (fd : ℕ)
    → a.fork1 ≡ pos 0
    → a.fork2 ≡ pos 0
    → ltb_ℤ a.setsid (pos 0) ≡ false
    → ltb_ℤ a.chdir (pos 0) ≡ false
    → a.devnull ≡ pos fd
    → p.fds fd ≡ none
    → (q : Process) × (daemonize a p ≡ returned q) × IsDaemon p fd q
unfolding daemonize
daemonize-IsDaemon a p fd f1 f2 s c opened free = (
  record { leader = false; terminal = false; cwd_root = true; mask = 0; fds = redirect p.fds fd },
  simp (f1, f2, s) (settle_returns a (forked (new_session (forked p))) fd c opened),
  record {
    no_leader = refl;
    no_terminal = refl;
    in_root = refl;
    no_mask = refl;
    stdin = (redirect_lem p.fds fd).0;
    stdout = (redirect_lem p.fds fd).1;
    stderr = (redirect_lem p.fds fd).2;
    others = λ n h. redirect_others p.fds fd n h free;
  },
)
