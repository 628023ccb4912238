-- ===== src/Environment/Daemon/Descriptors.antt =====
-- The descriptors of a daemon: all are closed, three are opened again, and the log comes next.
use csel_workspace.Prelude.{
  ℕ, zero, suc, ◌≡◌, refl, ◌∙◌, true, none, some, leb, if◌then◌else◌, arith,
}
use csel_workspace.Environment.Daemon.{
  dev_null, log, Fds, Answers, set_fd, close_down, lowest_free, redirect, openlog,
}

pub close_down_lem :
    (n : ℕ) (fds : Fds) (m : ℕ) → close_down n fds m ≡ (if leb m n then none else fds m)
unfolding close_down
close_down_lem zero fds m = ground arith
close_down_lem (suc n) fds m = close_down_lem n (set_fd fds (suc n) none) m ∙ ground arith

-- The three standard descriptors on /dev/null.
abbrev pub standard : Fds → Fds
standard fds = set_fd (set_fd (set_fd fds 0 (some dev_null)) 1 (some dev_null)) 2 (some dev_null)

pub redirect_lem :
    (a : Answers) (k : ℕ) (fds : Fds)
    → a.table ≡ suc k
    → a.null_ok ≡ true
    → a.dup_ok 1 ≡ true
    → a.dup_ok 2 ≡ true
    → fds 0 ≡ none
    → redirect a fds ≡ some (standard fds)
unfolding redirect lowest_free
redirect_lem a k fds l n d1 d2 free = rw (redirect, l, n, lowest_free, free, d1, d2) refl

pub openlog_lem :
    (a : Answers) (k : ℕ) (fds : Fds)
    → a.table ≡ suc (suc (suc (suc k)))
    → fds 3 ≡ none
    → openlog a (standard fds) ≡ set_fd (standard fds) 3 (some log)
unfolding openlog lowest_free
openlog_lem a k fds l free = rw (openlog, l, lowest_free, free) refl
