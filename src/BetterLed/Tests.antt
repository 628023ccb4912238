-- ===== src/BetterLed/Tests.antt =====
-- Runs of better_led, and examples of its theorems.
use csel_workspace.Prelude.{◌+◌, ◌≡◌, refl, true, List, [], ◌∷◌, ◌⊎◌, arith}
use csel_workspace.Prelude.Int.{ℤ, pos}
use csel_workspace.BetterLed.{Step, pressed, set_timer, expired, run, step, button_event, initial}
use csel_workspace.BetterLed.Periods.{run-IsPeriod, IsPeriod, AllArmed}
use csel_workspace.BetterLed.Startup.{Env, GpioFile, main, starts, registered, main-starts}

abbrev steps : List Step
steps = set_timer ∷ pressed 0 ∷ expired ∷ set_timer ∷ pressed 2 ∷ pressed 0 ∷ pressed 0 ∷ []

test_period : (run steps initial).0.blink_frequ_ms ≡ 400
unfolding run step button_event
test_period = refl

run-IsPeriod_example :
    IsPeriod (run steps initial).0.blink_frequ_ms × AllArmed (run steps initial).1
run-IsPeriod_example = run-IsPeriod steps initial (omega arith, omega arith, refl)

abbrev descriptor : GpioFile → ℤ
descriptor GpioFile.export = pos 4
descriptor GpioFile.unexport = pos 4
descriptor (GpioFile.direction g) = pos 4
descriptor (GpioFile.edge g) = pos 4
descriptor (GpioFile.value g) = pos (10 + g)

abbrev env : Env
env = record {
  opens = descriptor;
  epoll_created = true;
  epoll_added = λ fd. true;
  mutex_made = true;
}

test_main-starts :
    ((((main env).0 ≡ 0)
        × (starts (main env).1 ≡ 1)
        × (registered (main env).1 ≡ (pos 10, 0) ∷ (pos 12, 1) ∷ (pos 13, 2) ∷ []))
      ⊎ (((main env).0 ≡ 1) × (starts (main env).1 ≡ 0)))
test_main-starts = main-starts env
