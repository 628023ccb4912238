-- ===== src/PollDriver/Tests.antt =====
-- Runs of the polls and of the initialisation, and examples of the theorems.
use csel_workspace.Prelude.{◌+◌, ◌-◌, ◌^◌, ◌≡◌, refl, false, List, [], ◌∷◌, replicate, arith}
use csel_workspace.Prelude.Int.{pos, minus}
use csel_workspace.PollDriver.{
  State, Step, interrupt, enters, leaves, loaded, run, misc_register, devm_request_irq,
  request_next, skeleton_init,
}
use csel_workspace.PollDriver.Race.{interrupts, ready, only, polls, one_poller, poll_race}

-- When the second interrupt is refused the device stays registered and the third is not asked for.
test_init_fails :
    skeleton_init (pos 0) (pos 0) (minus 16) (pos 0)
    ≡ (loaded, misc_register ∷ devm_request_irq 0 ∷ devm_request_irq 2 ∷ [], minus 16)
unfolding skeleton_init request_next
test_init_fails = refl

abbrev one_interrupt : State
one_interrupt = record { nb_of_interrupts = 1; found = λ i. false }

poll_race_example :
    let race = enters 4 ∷ enters 7 ∷ leaves 4 ∷ leaves 7 ∷ polls 4 5 in
    (interrupts race ≡ 0)
    × ((run race one_interrupt).1 ≡ replicate 7 65)
    × ((run race one_interrupt).0.nb_of_interrupts ≡ 2 ^ 32 - 1 - 5)
poll_race_example =
    poll_race 4 7 5 one_interrupt (λ e. omega (arith, e)) refl refl refl (omega arith)

abbrev alone : List Step
alone = enters 4 ∷ interrupt ∷ enters 4 ∷ interrupt ∷ leaves 4 ∷ enters 4 ∷ []

alone_counted : interrupts alone ≡ 2
unfolding interrupts
alone_counted = refl

one_poller_example :
    (run alone loaded).0.nb_of_interrupts + ready (run alone loaded).1 ≡ 0 + interrupts alone
unfolding only
one_poller_example =
    one_poller 4 alone loaded refl (omega (arith, alone_counted)) (λ e. ground (arith, e))
