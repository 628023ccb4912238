-- ===== src/Environment/Daemon/Started.antt =====
-- What the process is when the daemon starts its body, and how the body ends.
use csel_workspace.Prelude.{
  ℕ, zero, suc, ◌+◌, ◌-◌, ◌≤◌, ◌≡◌, refl, ap, ◌∙◌, Bool, true, false, not, ◌&&◌, none, some, List,
  [], ◌∷◌, ◌++◌, ◌==◌, leb, ltb, if◌then◌else◌, arith,
}
use csel_workspace.Prelude.Int.{pos}
use csel_workspace.Environment.Daemon.{
  dev_null, log, Fds, hup, int, quit, abrt, term, tstp, Process, Answers, set_fd, close_down,
  close_all, drop_privileges, set_up, catch_signal, catch_signals, nap, finished, fork_process,
  close_log, closelog, process_main, daemon_main,
}
use csel_workspace.Environment.Daemon.Descriptors.{
  close_down_lem, standard, redirect_lem, openlog_lem,
}

-- A system that grants everything to the grandchild of both forks: `m` is the limit of descriptors,
-- `uid` and `gid` are the daemon's, `early` counts the signals before the first `sleep`, and `sleeps`
-- is what it answers.
abbrev pub granting : ℕ → ℕ → ℕ → ℕ → ℕ → List (ℕ × ℕ) → Answers
granting sid m uid gid early sleeps = record {
  fork1 = pos 0;
  setsid = pos sid;
  fork2 = pos 0;
  chdir_ok = true;
  open_max = pos m;
  table = m;
  null_ok = true;
  dup_ok = λ fd. true;
  passwd = some (uid, gid);
  chroot_ok = true;
  setegid_ok = true;
  seteuid_ok = true;
  early = early;
  sleeps = sleeps;
}

-- What the steps 4 to 12 make of a process.
abbrev prepared : ℕ → ℕ → ℕ → ℕ → Process → Process
prepared m uid gid early p = record p {
  caught = hup ∷ int ∷ quit ∷ abrt ∷ term ∷ tstp ∷ [];
  mask = 23;
  cwd_root = true;
  fds = set_fd (standard (close_down m p.fds)) 3 (some log);
  chrooted = true;
  egid = gid;
  euid = uid;
  signal_catched = p.signal_catched + early;
}

catch_signals_lem :
    (n : ℕ) (p : Process) → catch_signals n p ≡ record p { signal_catched = p.signal_catched + n }
unfolding catch_signals catch_signal
catch_signals_lem zero p = ap (λ k. record p { signal_catched = k }) (omega arith)
catch_signals_lem (suc n) p =
    catch_signals_lem n (catch_signal p) ∙ ap (λ k. record p { signal_catched = k }) (omega arith)

set_up_lem :
    (sid m uid gid early : ℕ) (sleeps : List (ℕ × ℕ)) (p : Process)
    → 4 ≤ m
    → set_up (granting sid m uid gid early sleeps) p ≡ some (prepared m uid gid early p)
unfolding set_up drop_privileges close_all
set_up_lem sid m uid gid early sleeps p h =
    let a = granting sid m uid gid early sleeps in
    let closed = close_down m p.fds in
    let one : m ≡ suc (m - 1) = omega (arith, h) in
    let four : m ≡ suc (suc (suc (suc (m - 4)))) = omega (arith, h) in
    let gone : (n : ℕ) → n ≤ m → closed n ≡ none =
      λ n l. close_down_lem m p.fds n ∙ ground (arith, l) in
    rw
      (
        set_up,
        redirect_lem a (m - 1) closed one refl refl refl (gone 0 (omega (arith, h))),
        openlog_lem a (m - 4) closed four (gone 3 (omega (arith, h))),
        catch_signals_lem early _,
      )
      refl

-- Answers of `sleep` that are not 0.
abbrev pub no_zero : List (ℕ × ℕ) → Bool
no_zero [] = true
no_zero (n ∷ ns) = not (n.0 == 0) && no_zero ns

-- The signals caught at some sleeps.
abbrev pub total : List (ℕ × ℕ) → ℕ
total [] = 0
total (n ∷ ns) = n.1 + total ns

-- The numbers that `sleep` is called with, after the first.
abbrev asked : List (ℕ × ℕ) → List ℕ
asked [] = []
asked (n ∷ ns) = n.0 ∷ asked ns

nap_lem :
    (t last : ℕ) (rests more : List (ℕ × ℕ)) (p : Process)
    → no_zero rests ≡ true
    → nap t (rests ++ ((0, last) ∷ more)) p ≡ (
      t ∷ asked rests,
      record p { signal_catched = p.signal_catched + (total rests + last) },
      true,
    )
unfolding nap
nap_lem t last [] more p h =
    ap (λ q. (t ∷ [], q, true))
      (catch_signals_lem last p ∙ ap (λ k. record p { signal_catched = k }) (omega arith))
nap_lem t last ((r, k) ∷ rests) more p h =
    let nonzero : (r == 0) ≡ false = ground (arith, h) in
    rw (nap, nonzero, catch_signals_lem k p, nap_lem r last rests more _ (ground (arith, h)))
      (ap (λ n. (t ∷ r ∷ asked rests, record p { signal_catched = n }, true)) (omega arith))

-- The process at its end, as a daemon that came from `p`; `n` is any descriptor.
pub record IsDaemon (p q : Process) (m uid gid signals n : ℕ) : Type 0 where
  no_leader : q.leader ≡ false
  no_terminal : q.terminal ≡ false
  catches : q.caught ≡ hup ∷ int ∷ quit ∷ abrt ∷ term ∷ tstp ∷ []
  masks : q.mask ≡ 23
  in_root : (q.cwd_root ≡ true) × (q.chrooted ≡ true)
  runs_as : (q.euid ≡ uid) × (q.egid ≡ gid)
  files :
      q.fds n ≡ (if ltb n 3 then some dev_null else if leb n m then none else close_log (p.fds n))
  counts : q.signal_catched ≡ p.signal_catched + signals

fds_at_end :
    (m n : ℕ) (fds : Fds)
    → 4 ≤ m
    → close_log (set_fd (standard (close_down m fds)) 3 (some log) n)
      ≡ (if ltb n 3 then some dev_null else if leb n m then none else close_log (fds n))
fds_at_end m n fds h = ground (arith, h, close_down_lem m fds n)

-- When all calls succeed, the limit of descriptors is 4 at least, and `sleep` is cut short any number
-- of times before it answers 0: the daemon comes to its end. Its process leads no session and has no
-- terminal, catches six signals, has the mask 0027, is in the root directory and runs as the
-- daemon's user and group. Its descriptors up to the limit are /dev/null for 0, 1 and 2 and closed
-- otherwise; the number of signals that it logs is that of all it caught since it set up their
-- handler, `early` of them before its first sleep and any number from a sleep to the next.
pub daemon_main-IsDaemon :
    (sid m uid gid early last : ℕ) (rests more : List (ℕ × ℕ)) (p : Process) (n : ℕ)
    → 4 ≤ m
    → no_zero rests ≡ true
    → (q : Process) × (daemon_main (granting sid m uid gid early (rests ++ ((0, last) ∷ more))) p
        ≡ finished q)
      × IsDaemon p q m uid gid (early + total rests + last) n
unfolding daemon_main fork_process process_main closelog
daemon_main-IsDaemon sid m uid gid early last rests more p n h z =
    let sleeps = rests ++ ((0, last) ∷ more) in
    let child = record p { leader = false; terminal = false } in
    let ready = set_up_lem sid m uid gid early sleeps child h in
    let slept = nap_lem 30 last rests more (prepared m uid gid early child) z in
    (
      closelog (record (prepared m uid gid early child) {
        signal_catched = p.signal_catched + early + (total rests + last);
      }),
      rw (process_main, ready, slept) refl,
      record {
        no_leader = refl;
        no_terminal = refl;
        catches = refl;
        masks = refl;
        in_root = (refl, refl);
        runs_as = (refl, refl);
        files = fds_at_end m n p.fds h;
        counts = omega arith;
      },
    )
