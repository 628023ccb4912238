-- ===== src/KernelModules/Tests.antt =====
-- Runs of the kernel modules, and examples of their theorems.
use csel_workspace.Prelude.{◌≤◌, [], ◌∷◌, List, arith, ◌≡◌, refl, true, false, ◌==◌, if◌then◌else◌}
use csel_workspace.Prelude.Int.{◌-ℤ◌, pos}
use csel_workspace.Prelude.Text.{codes}
use csel_workspace.Prelude.Ledger.{acquired, released}
use csel_workspace.KernelModules.Elements as Elements
use csel_workspace.KernelModules.Interrupts as Interrupts
use csel_workspace.KernelModules.Registers as Registers
use csel_workspace.KernelModules.Registers.{temperature, hex, hex_digit, mac_bytes, byte, colons}
use csel_workspace.KernelModules.Threads.{
  ended_1, reset_2, ended_2, State, Turn, turn_1, turn_2, run, step_first, step_second, take_turn,
  started, skeleton_exit,
}
use csel_workspace.KernelModules.Threads.Stop.{exit_ends}
use csel_workspace.KernelModules.Threads.Notified.{received_le_sent}

-- The second element has no memory, the third no text.
abbrev scarce : Elements.Env
scarce = record {
  element_ok = λ i. if i == 1 then false else true;
  text_ok = λ i. if i == 2 then false else true;
}

unload_balance_example :
    acquired
      (Elements.same (Elements.text 0))
      (Elements.skeleton_init scarce (codes "hello") (pos 3)).1
    ≡ released
        (Elements.same (Elements.text 0))
        (Elements.skeleton_exit (Elements.skeleton_init scarce (codes "hello") (pos 3)).0)
unload_balance_example = Elements.unload_balance scarce (codes "hello") (pos 3) (Elements.text 0)

-- All is granted but a shared handler with no `dev_id`.
abbrev granted : Interrupts.Env
granted = record {
  gpio_ok = λ p. true;
  shared_irq_ok = λ p dev_id. if dev_id == 0 then false else true;
}

test_first_button_dead :
    let ops = Interrupts.skeleton_init granted in
    let is_pin = Interrupts.same (Interrupts.gpio (Interrupts.pin Interrupts.k1_switch)) in
    let is_irq = Interrupts.same (Interrupts.irq (Interrupts.pin Interrupts.k1_switch)) in
    (acquired is_irq ops ≡ 0)
    × (acquired is_pin ops ≡ released is_pin ops)
    × (released is_irq Interrupts.skeleton_exit ≡ 1)
    × (released is_pin Interrupts.skeleton_exit ≡ 1)
test_first_button_dead = Interrupts.first_button_dead granted (λ p. refl)

test_temperature : temperature 1450 ≡ pos 50305
unfolding temperature ◌-ℤ◌
test_temperature = refl

-- A MAC address of the words 0x0504 and 0x03020100.
abbrev words : Registers.Env
words = record {
  maps = λ i. if i == 1 then false else true;
  word = λ range offset. if offset == 4 then 50462976 else 1284;
}

test_mac : colons (mac_bytes words) ≡ codes "00:01:02:03:04:05"
unfolding mac_bytes byte colons hex hex_digit
test_mac = refl

test_unmapped :
    acquired (Registers.same 2) (Registers.skeleton_init words).2
    ≡ released (Registers.same 2) (Registers.skeleton_init words).2
test_unmapped = (Registers.registers_balance words 2).0

-- The threads in the middle of a notification, and their turns while the module is unloaded.
abbrev busy : State
busy = run (turn_1 ∷ turn_1 ∷ turn_1 ∷ turn_2 ∷ turn_2 ∷ turn_2 ∷ []) started

abbrev in_turn : List Turn
in_turn = turn_1 ∷ turn_2 ∷ turn_1 ∷ turn_2 ∷ turn_1 ∷ turn_2 ∷ turn_1 ∷ turn_2 ∷ []

test_busy : (busy.received ≡ 1) × (busy.second ≡ reset_2)
unfolding run take_turn step_first step_second
test_busy = (refl, refl)

exit_ends_example :
    ((skeleton_exit in_turn in_turn busy).first ≡ ended_1)
    × ((skeleton_exit in_turn in_turn busy).second ≡ ended_2)
exit_ends_example = exit_ends in_turn in_turn busy (omega arith) (omega arith)

test_received_le_sent : (run in_turn started).received ≤ (run in_turn started).sent
test_received_le_sent = received_le_sent in_turn
