-- ===== src/ButtonDriver/Tests.antt =====
-- Runs of the button driver, and examples of its theorems.
use csel_workspace.Prelude.{
  ℕ, ◌+◌, ◌≤◌, ◌<◌, ◌≡◌, refl, true, false, ◌==◌, List, [], ◌∷◌, ◌++◌, length, arith, ◌⊎◌,
  if◌then◌else◌,
}
use csel_workspace.Prelude.Int.{pos, minus}
use csel_workspace.Prelude.Errno.{eagain}
use csel_workspace.Prelude.Text.{codes}
use csel_workspace.Prelude.Decimal.{print_int, print_nat, print_from}
use csel_workspace.Prelude.Ledger.{acquired, released}
use csel_workspace.ButtonDriver.{
  Event, interrupt, begins, ends, run, read_begin, returns, count_text, atomic_read, skeleton_poll,
  nb_of_interrupts_show,
}
use csel_workspace.ButtonDriver.Conserved.{
  interrupts_conserved, poll-read, interrupts, lossless, delivered,
}
use csel_workspace.ButtonDriver.Wakeup.{wakeup_race, weave, gpio_isr, micros, asleep}
use csel_workspace.ButtonDriver.Setup.{
  InitEnv, k2_switch, pin, gpio, irq, same, held, skeleton_init, skeleton_exit, unload_switches,
}

-- Two presses, a reader, a third press, a reader that waits and is woken by a fourth.
abbrev presses : List Event
presses =
    interrupt
    ∷ interrupt
    ∷ begins false false
    ∷ begins false false
    ∷ interrupt
    ∷ interrupt
    ∷ ends false
    ∷ interrupt
    ∷ []

test_text : count_text 42 ≡ codes "42" ++ (10 ∷ [])
unfolding count_text atomic_read print_int print_nat print_from
test_text = refl

interrupts_conserved_example :
    (run presses 0).0 + delivered (run presses 0).1 ≡ 0 + interrupts presses
unfolding interrupts lossless
interrupts_conserved_example = interrupts_conserved presses 0 (omega arith) refl

abbrev seven : ℕ
seven = 7

test_poll_read :
    ((seven ≡ 0)
      × (skeleton_poll seven ≡ 0)
      × (read_begin true false seven ≡ (0, returns (minus eagain) [])))
    ⊎ ((0 < seven)
        × (skeleton_poll seven ≡ 65)
        × (read_begin true false seven
            ≡ (0, returns (pos (length (count_text seven))) (nb_of_interrupts_show seven)))
        × (length (count_text seven) ≤ 12))
test_poll_read = poll-read seven (omega arith)

-- No test before the handler, one between its statements, three behind.
abbrev disturbed : ℕ → ℕ
disturbed i = if i == 0 then 0 else if i == 1 then 1 else 3

wakeup_race_example : micros (weave disturbed 0 gpio_isr) 0 asleep ≡ (1, asleep)
wakeup_race_example = wakeup_race disturbed

-- The interrupt of the second button is not granted.
abbrev second_irq_fails : InitEnv
second_irq_fails = record {
  misc_status = pos 0;
  file_status = pos 0;
  gpio_ok = λ p. true;
  irq_ok = λ p. if p == 2 then false else true;
}

test_unload_switches :
    let out = skeleton_init second_irq_fails in
    let is_pin = same (gpio (pin k2_switch)) in
    let is_irq = same (irq (pin k2_switch)) in
    (out.0 ≡ pos 0)
    × (acquired is_pin out.1 ≡ released is_pin out.1 + held second_irq_fails k2_switch)
    × (acquired is_irq out.1 ≡ released is_irq out.1 + held second_irq_fails k2_switch)
    × (released is_pin skeleton_exit ≡ 1)
    × (released is_irq skeleton_exit ≡ 1)
test_unload_switches = unload_switches second_irq_fails k2_switch refl refl
