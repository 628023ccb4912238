-- ===== src/Multiprocessing/Messages/Conversation.antt =====
-- What parent and child say to each other.
use mathlib.Core.Path.{subst}
use csel_workspace.Prelude.{
  ℕ, zero, suc, ◌+◌, ◌<◌, ◌≡◌, refl, sym, ap, ◌∙◌, Bool, true, false, List, [], ◌∷◌, ◌++◌,
  if◌then◌else◌, length, take, arith,
}
use csel_workspace.Prelude.Int.{pos}
use csel_workspace.Prelude.Text.{no_nul}
use csel_workspace.Multiprocessing.Messages.{
  main, Output, closed, message_sent, write_error, child_started, child_terminated,
  message_received, shutting_down, child_exited, parent_waiting, is_exit, setup_signals,
  pin_to_core, Env, messages, send_messages, exited, child_process, Read, chunk, end_of_file,
  interrupted, text_of, receive, parent_process,
}

-- The answers of `read` bring these messages, one in each piece, and then the end of the stream. The
-- end comes since the parent has closed the child's side of the socket, and the child has ended.
pub data OneByOne : List (List ℕ) → List Read → Type 0 where
  none_left : OneByOne [] (end_of_file ∷ [])
  again :
      {ms : List (List ℕ)} {reads : List Read}
      → OneByOne ms reads
      → OneByOne ms (interrupted ∷ reads)
  one :
      {ms : List (List ℕ)} {reads : List Read} (m : List ℕ)
      → OneByOne ms reads
      → OneByOne (m ∷ ms) (chunk (m ++ (0 ∷ [])) ∷ reads)

text_of_lem : (m : List ℕ) → no_nul m ≡ true → text_of (m ++ (0 ∷ [])) ≡ m
unfolding text_of no_nul
text_of_lem [] h = refl
text_of_lem (b ∷ m) h = ground (arith, h, text_of_lem m)

-- What the parent prints for messages that come one by one.
abbrev pub received : List (List ℕ) → List Output
received [] = []
received (m ∷ ms) =
    message_received m ∷ (let rest = received ms in if is_exit m then shutting_down ∷ [] else rest)

abbrev AllTexts : List (List ℕ) → Type 0
AllTexts [] = Unit
AllTexts (m ∷ ms) = (no_nul m ≡ true) × AllTexts ms

receive_lem :
    {ms : List (List ℕ)} {reads : List Read}
    → OneByOne ms reads
    → AllTexts ms
    → receive reads ≡ (received ms, true)
unfolding receive
receive_lem none_left t = refl
receive_lem (again d) t = receive_lem d t
receive_lem (one m d) (u, t) = ground (arith, text_of_lem m u, receive_lem d t)

-- Only the last message may be the last word.
abbrev LastOnly : List (List ℕ) → Type 0
LastOnly [] = Unit
LastOnly (m ∷ []) = Unit
LastOnly (m ∷ n ∷ ms) = (is_exit m ≡ false) × LastOnly (n ∷ ms)

-- `k` is the number of messages whose `write` succeeds, before the first that fails.
abbrev FailsAt : (ℕ → Bool) → ℕ → ℕ → ℕ → Type 0
FailsAt ok i k n = ((j : ℕ) → j < k → ok (i + j) ≡ true) × (k < n → ok (i + k) ≡ false)

FailsAt-suc : (ok : ℕ → Bool) (i k n : ℕ) → FailsAt ok i (suc k) (suc n) → FailsAt ok (i + 1) k n
FailsAt-suc ok i k n (g, l) = (
  λ j h. ap ok (omega arith) ∙ g (suc j) (omega (arith, h)),
  λ h. ap ok (omega arith) ∙ l (omega (arith, h)),
)

first_ok : (ok : ℕ → Bool) (i k n : ℕ) → FailsAt ok i (suc k) n → ok i ≡ true
first_ok ok i k n (g, l) = ap ok (omega arith) ∙ g 0 (omega arith)

first_fails : (ok : ℕ → Bool) (i n : ℕ) → FailsAt ok i 0 (suc n) → ok i ≡ false
first_fails ok i n (g, l) = ap ok (omega arith) ∙ l (omega arith)

take-nil : (k : ℕ) → take {A = List ℕ} k [] ≡ []
take-nil zero = refl
take-nil (suc k) = refl

sent_lem :
    (ok : ℕ → Bool) (i k : ℕ) (ms : List (List ℕ))
    → FailsAt ok i k (length ms)
    → LastOnly ms
    → (send_messages ok i ms).1 ≡ take k ms
unfolding send_messages
sent_lem ok i k [] f l = sym (take-nil k)
sent_lem ok i zero (m ∷ ms) f l = rw (send_messages, first_fails ok i (length ms) f) refl
sent_lem ok i (suc k) (m ∷ []) f l =
    rw (send_messages, first_ok ok i k 1 f) (ground (arith, take-nil k))
sent_lem ok i (suc k) (m ∷ n ∷ ms) f (e, l) =
    rw (send_messages, first_ok ok i k _ f, e)
      (ap (λ t. m ∷ t) (sent_lem ok (i + 1) k (n ∷ ms) (FailsAt-suc ok i k _ f) l))

AllTexts-take : (k : ℕ) (ms : List (List ℕ)) → AllTexts ms → AllTexts (take k ms)
AllTexts-take zero ms t = tt
AllTexts-take (suc k) [] t = tt
AllTexts-take (suc k) (m ∷ ms) (u, t) = (u, AllTexts-take k ms t)

texts : AllTexts messages
unfolding no_nul
texts = (refl, (refl, (refl, (refl, tt))))

last_word : LastOnly messages
unfolding is_exit
last_word = (refl, (refl, (refl, tt)))

child_sends :
    (env : Env) (ok : ℕ → Bool) (k : ℕ)
    → (setup_signals env.sigaction_ok).1 ≡ true
    → FailsAt ok 0 k 4
    → (child_process env ok).1 ≡ take k messages
unfolding child_process
child_sends env ok k c f = rw c (sent_lem ok 0 k messages f last_word)

-- What the child prints for its messages, of which the first `k` can be written.
abbrev pub told : ℕ → List (List ℕ) → List Output
told k [] = []
told zero (m ∷ ms) = write_error ∷ []
told (suc k) (m ∷ ms) = message_sent m ∷ told k ms

told_lem :
    (ok : ℕ → Bool) (i k : ℕ) (ms : List (List ℕ))
    → FailsAt ok i k (length ms)
    → LastOnly ms
    → (send_messages ok i ms).0 ≡ told k ms
unfolding send_messages
told_lem ok i k [] f l = refl
told_lem ok i zero (m ∷ ms) f l = rw (send_messages, first_fails ok i (length ms) f) refl
told_lem ok i (suc k) (m ∷ []) f l = rw (send_messages, first_ok ok i k 1 f) (ground arith)
told_lem ok i (suc k) (m ∷ n ∷ ms) f (e, l) =
    rw (send_messages, first_ok ok i k _ f, e)
      (ap (λ t. message_sent m ∷ t) (told_lem ok (i + 1) k (n ∷ ms) (FailsAt-suc ok i k _ f) l))

-- When the socket pair is made, `fork` brings 0 in the child and a process id in the parent, both can
-- set up their signals, the writes of the child succeed up to the `k`-th of its four messages, and
-- each `read` of the parent brings one message or EINTR: the child closes the parent's end first, it
-- sends its first `k` messages and prints each, or an error for one that it cannot send, closes its
-- own end, prints that it terminates and exits with 0. The parent closes the child's end first. It
-- prints each message, and the announcement of its end when "exit" is among them, closes its own end
-- and only then prints the status of the child, and exits with 0.
pub conversation :
    (parent_env child_env : Env) (ok : ℕ → Bool) (k pid : ℕ) (reads : List Read) (status : ℕ)
    → (setup_signals parent_env.sigaction_ok).1 ≡ true
    → (setup_signals child_env.sigaction_ok).1 ≡ true
    → FailsAt ok 0 k 4
    → OneByOne (child_process child_env ok).1 reads
    → ((child_process child_env ok).1 ≡ take k messages)
      × (main true (pos 0) child_env ok reads status ≡ (
        closed 0
            ∷ pin_to_core child_env.affinity_ok 1
            ∷ child_started
            ∷ (told k messages ++ (closed 1 ∷ child_terminated ∷ [])),
        exited 0,
      ))
      × (main true (pos (suc pid)) parent_env ok reads status ≡ (
        closed 1
            ∷ pin_to_core parent_env.affinity_ok 0
            ∷ parent_waiting
            ∷ (received (take k messages) ++ (closed 0 ∷ child_exited status ∷ [])),
        exited 0,
      ))
unfolding main parent_process child_process
conversation parent_env child_env ok k pid reads status p c f d =
    let sent = child_sends child_env ok k c f in
    let d' = subst (λ ms. OneByOne ms reads) sent d in
    (
      sent,
      rw (c, told_lem ok 0 k messages f last_word) refl,
      rw (p, receive_lem d' (AllTexts-take k messages texts)) refl,
    )
