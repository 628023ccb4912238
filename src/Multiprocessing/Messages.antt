-- ===== src/Multiprocessing/Messages.antt =====
-- src/05_multiprocessing_and_schedulers/exercise_1/main.c: a child sends messages to its parent over
-- a stream socket until it sends "exit".
pub mod Conversation
pub mod Signals
mod Tests
use csel_workspace.Prelude.{
  ℕ, zero, suc, ◌+◌, ◌-◌, ◌≤◌, ◌≢◌, Bool, true, false, not, ◌&&◌, Option, none, some, List, [], ◌∷◌,
  ◌++◌, ◌==◌, if◌then◌else◌, length,
}
use csel_workspace.Prelude.Int.{ℤ, pos, negsuc}
use csel_workspace.Prelude.Text.{codes, eq_text, snprintf}
use csel_workspace.Prelude.Decimal.{print_nat}

-- What the two processes print, what they write to their error output, and which end of the socket
-- pair they close.
pub data Output : Type 0 where
  pinned not_pinned : ℕ → Output
  sigaction_error : Output
  child_started write_error child_terminated : Output
  message_sent : List ℕ → Output
  parent_waiting shutting_down : Output
  message_received : List ℕ → Output
  child_exited : ℕ → Output
  closed : ℕ → Output

-- `strcmp(t, "exit") == 0`.
unfoldable pub is_exit : List ℕ → Bool
unfolding eq_text
is_exit t = eq_text t (codes "exit")

-- `signal_handler`: what `snprintf` leaves in `buf` and how many bytes `write` then takes from it.
unfoldable pub signal_name : ℕ → List ℕ
signal_name signum =
    if signum == 1
    then codes "SIGHUP"
    else if signum == 2
    then codes "SIGINT"
    else if signum == 3
    then codes "SIGQUIT"
    else if signum == 6
    then codes "SIGABRT"
    else if signum == 15
    then codes "SIGTERM"
    else codes "UNKNOWN"

abbrev pub handler_text : ℕ → ℕ → List ℕ
handler_text pid signum =
    codes "[PID "
    ++ (print_nat pid
        ++ (codes "] Signal " ++ (signal_name signum ++ codes " received and ignored.\n")))

unfoldable pub signal_handler : ℕ → ℕ → List ℕ × ℕ
signal_handler pid signum =
    (snprintf 128 (handler_text pid signum), length (handler_text pid signum))

-- `setup_signals`: the signals that `sigaction` is called for, up to one that it refuses.
unfoldable pub register : (ℕ → Bool) → List ℕ → List ℕ × Bool
register ok [] = ([], true)
register ok (s ∷ signals) =
    let rest = register ok signals in if ok s then (s ∷ rest.0, rest.1) else (s ∷ [], false)

-- SIGHUP, SIGINT, SIGQUIT, SIGABRT and SIGTERM.
abbrev pub signals : List ℕ
signals = 1 ∷ 2 ∷ 3 ∷ 6 ∷ 15 ∷ []

unfoldable pub setup_signals : (ℕ → Bool) → List ℕ × Bool
unfolding register
setup_signals ok = register ok signals

unfoldable pub pin_to_core : Bool → ℕ → Output
pin_to_core ok core = if ok then pinned core else not_pinned core

-- What a process finds: whether its affinity can be set, and which signals can be caught.
pub record Env : Type 0 where
  pub affinity_ok : Bool
  pub sigaction_ok : ℕ → Bool

abbrev pub messages : List (List ℕ)
messages =
    codes "Hello from the child!" ∷ codes "How are you, parent?" ∷ codes "Bybye" ∷ codes "exit" ∷ []

-- The loop of `child_process` from the `i`-th message on: what it prints and what it has sent. `ok`
-- is whether the `write` of a message succeeds.
unfoldable pub send_messages : (ℕ → Bool) → ℕ → List (List ℕ) → List Output × List (List ℕ)
send_messages ok i [] = ([], [])
send_messages ok i (m ∷ ms) =
    let rest = send_messages ok (i + 1) ms in
    if not (ok i)
    then (write_error ∷ [], [])
    else if is_exit m
    then (message_sent m ∷ [], m ∷ [])
    else (message_sent m ∷ rest.0, m ∷ rest.1)

-- How a process ends, with what it printed.
pub data Ending : Type 0 where
  exited : ℕ → Ending
  still_reading : Ending

-- `child_process`, which is given end 1: its output, the messages sent, each with its NUL, and its exit status.
unfoldable pub child_process : Env → (ℕ → Bool) → List Output × List (List ℕ) × Ending
child_process env ok =
    if (setup_signals env.sigaction_ok).1
    then (let loop = send_messages ok 0 messages in
        (
          pin_to_core env.affinity_ok 1
              ∷ child_started
              ∷ (loop.0 ++ (closed 1 ∷ child_terminated ∷ [])),
          loop.1,
          exited 0,
        ))
    else (pin_to_core env.affinity_ok 1 ∷ sigaction_error ∷ [], [], exited 1)

-- The bytes of messages on the stream: `strlen(messages[i]) + 1` of each.
abbrev pub stream : List (List ℕ) → List ℕ
stream [] = []
stream (m ∷ ms) = m ++ (0 ∷ stream ms)

-- What `read` answers: some bytes, the end of the stream, EINTR or another error.
pub data Read : Type 0 where
  chunk : List ℕ → Read
  end_of_file interrupted failed : Read

-- The string in `buf` after `buf[n] = '\0'`.
unfoldable pub text_of : List ℕ → List ℕ
text_of [] = []
text_of (b ∷ bs) = let rest = text_of bs in if b == 0 then [] else b ∷ rest

-- The loop of `parent_process` over the answers of `read`: what it prints, and whether it was left.
unfoldable pub receive : List Read → List Output × Bool
receive [] = ([], false)
receive (interrupted ∷ reads) = receive reads
receive (failed ∷ reads) = ([], true)
receive (end_of_file ∷ reads) = ([], true)
receive (chunk c ∷ reads) =
    let rest = receive reads in
    if is_exit (text_of c)
    then (message_received (text_of c) ∷ shutting_down ∷ [], true)
    else (message_received (text_of c) ∷ rest.0, rest.1)

-- `parent_process`, which is given end 0; `status` is the status of the child that `waitpid` brings.
unfoldable pub parent_process : Env → List Read → ℕ → List Output × Ending
parent_process env reads status =
    if (setup_signals env.sigaction_ok).1
    then (let loop = receive reads in
        if loop.1
        then (
          pin_to_core env.affinity_ok 0
              ∷ parent_waiting
              ∷ (loop.0 ++ (closed 0 ∷ child_exited status ∷ [])),
          exited 0,
        )
        else (pin_to_core env.affinity_ok 0 ∷ parent_waiting ∷ loop.0, still_reading))
    else (pin_to_core env.affinity_ok 0 ∷ sigaction_error ∷ [], exited 1)

-- `main`: the output of the process that returns from `fork`, in order, and how it ends. Nothing is
-- closed when a call fails.
unfoldable pub main : Bool → ℤ → Env → (ℕ → Bool) → List Read → ℕ → List Output × Ending
main socketpair_ok fork env ok reads status =
    let child = child_process env ok in
    let parent = parent_process env reads status in
    if not socketpair_ok then ([], exited 1) else elim fork [
      | negsuc n ↦ ([], exited 1)
      | pos zero ↦ (closed 0 ∷ child.0, child.2)
      | pos (suc n) ↦ (closed 1 ∷ parent.0, parent.1)
    ]
