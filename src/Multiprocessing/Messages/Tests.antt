-- ===== src/Multiprocessing/Messages/Tests.antt =====
-- Runs of exercise_1, and examples of its theorems.
use csel_workspace.Prelude.{
  ℕ, Bool, ◌<◌, ◌≡◌, refl, true, false, List, [], ◌∷◌, ◌++◌, length, take, arith, if◌then◌else◌,
  ◌==◌,
}
use csel_workspace.Prelude.Int.{pos}
use csel_workspace.Prelude.Text.{codes, eq_text}
use csel_workspace.Multiprocessing.Messages.{
  main, closed, child_started, child_terminated, message_received, child_exited, parent_waiting,
  is_exit, register, setup_signals, pin_to_core, Env, messages, send_messages, exited,
  child_process, stream, Read, chunk, end_of_file, interrupted, text_of, receive, handler_text,
  signal_handler,
}
use csel_workspace.Multiprocessing.Messages.Conversation.{
  OneByOne, none_left, again, one, received, told, conversation,
}
use csel_workspace.Multiprocessing.Messages.Signals.{handler_fits}

abbrev env : Env
env = record { affinity_ok = true; sigaction_ok = λ s. true }

setup_ok : (setup_signals env.sigaction_ok).1 ≡ true
unfolding setup_signals register
setup_ok = refl

-- "exit" in one read with the message before it goes unseen; the end of the stream ends the loop.
test_coalesced :
    receive (chunk (stream (codes "Bybye" ∷ codes "exit" ∷ [])) ∷ end_of_file ∷ [])
    ≡ (message_received (codes "Bybye") ∷ [], true)
unfolding receive text_of is_exit eq_text
test_coalesced = refl

abbrev replies : List Read
replies =
    chunk (codes "Hello from the child!" ++ (0 ∷ []))
    ∷ interrupted
    ∷ chunk (codes "How are you, parent?" ++ (0 ∷ []))
    ∷ end_of_file
    ∷ []

two_sent : OneByOne (child_process env (λ i. if i == 2 then false else true)).1 replies
unfolding child_process setup_signals register send_messages is_exit eq_text
two_sent =
    one (codes "Hello from the child!") (again (one (codes "How are you, parent?") none_left))

abbrev third_fails : ℕ → Bool
third_fails i = if i == 2 then false else true

conversation_example :
    ((child_process env third_fails).1 ≡ take 2 messages)
    × (main true (pos 0) env third_fails replies 0 ≡ (
      closed 0
          ∷ pin_to_core true 1
          ∷ child_started
          ∷ (told 2 messages ++ (closed 1 ∷ child_terminated ∷ [])),
      exited 0,
    ))
    × (main true (pos 78) env third_fails replies 0 ≡ (
      closed 1
          ∷ pin_to_core true 0
          ∷ parent_waiting
          ∷ (received (take 2 messages) ++ (closed 0 ∷ child_exited 0 ∷ [])),
      exited 0,
    ))
conversation_example =
    conversation env env third_fails 2 77 replies 0 setup_ok setup_ok
      (λ j h. ground (arith, h), λ h. refl) two_sent

test_handler_fits :
    (signal_handler 4711 15 ≡ (handler_text 4711 15, length (handler_text 4711 15)))
    × (length (handler_text 4711 15) < 128)
test_handler_fits = handler_fits 4711 15 (omega arith)
