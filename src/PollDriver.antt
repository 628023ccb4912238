-- ===== src/PollDriver.antt =====
-- teacher_solutions/03_drivers/exercice07/drv/skeleton.c: a driver whose poll takes one interrupt
-- from a counter. Pollers and the handler take steps in any order, one atomic access each.
pub mod Race
pub mod Tests
use csel_workspace.Prelude.{
  ℕ, ◌+◌, ◌-◌, ◌%◌, ◌^◌, Bool, true, false, List, [], ◌∷◌, ◌++◌, ◌==◌, if◌then◌else◌,
}
use csel_workspace.Prelude.Int.{ℤ, pos, ==ℤ}
use csel_workspace.ButtonDriver.{pollin, pollrdnorm, atomic_inc}

-- `atomic_dec` of the 32 bits of an `atomic_t`.
unfoldable pub atomic_dec : ℕ → ℕ
atomic_dec c = (c + (2 ^ 32 - 1)) % 2 ^ 32

-- The counter, and the pollers that found it not 0 and have not taken from it yet.
pub record State : Type 0 where
  pub nb_of_interrupts : ℕ
  pub found : ℕ → Bool

pub data Step : Type 0 where
  interrupt : Step
  enters leaves : ℕ → Step

abbrev pub put : ℕ → Bool → (ℕ → Bool) → ℕ → Bool
put i b found j = if j == i then b else found j

unfoldable pub gpio_isr : State → State
gpio_isr s = record s { nb_of_interrupts = atomic_inc s.nb_of_interrupts }

-- `skeleton_poll` up to its test, with the mask that it returns at a counter of 0.
unfoldable pub poll_enter : ℕ → State → State × List ℕ
poll_enter i s =
    if s.nb_of_interrupts == 0 then (s, 0 ∷ []) else (record s { found = put i true s.found }, [])

-- The rest of `skeleton_poll`. The two bits of the mask are distinct, so that their `|` is their sum.
unfoldable pub poll_leave : ℕ → State → State × List ℕ
poll_leave i s = (
  record { nb_of_interrupts = atomic_dec s.nb_of_interrupts; found = put i false s.found },
  (pollin + pollrdnorm) ∷ [],
)

-- A step that the poller is not at changes nothing.
unfoldable pub step : Step → State → State × List ℕ
step interrupt s = (gpio_isr s, [])
step (enters i) s = if s.found i then (s, []) else poll_enter i s
step (leaves i) s = if s.found i then poll_leave i s else (s, [])

-- The steps one after the other, and the masks that the pollers got.
unfoldable pub run : List Step → State → State × List ℕ
run [] s = (s, [])
run (e ∷ es) s = let (s', masks) = step e s in let (s'', more) = run es s' in (s'', masks ++ more)

abbrev pub loaded : State
loaded = record { nb_of_interrupts = 0; found = λ i. false }

pub data Call : Type 0 where
  misc_register misc_deregister : Call
  devm_request_irq : ℕ → Call

-- A request that is made only at status 0, given what it answers.
unfoldable pub request_next : ℕ → ℤ → List Call × ℤ → List Call × ℤ
request_next k answer (calls, status) =
    if ==ℤ status (pos 0) then (calls ++ (devm_request_irq k ∷ []), answer) else (calls, status)

-- `skeleton_init`, given what `misc_register` and the three requests answer.
unfoldable pub skeleton_init : ℤ → ℤ → ℤ → ℤ → State × List Call × ℤ
skeleton_init registered irq1 irq2 irq3 =
    let (calls, status) =
      request_next 3 irq3
        (request_next 2 irq2 (request_next 0 irq1 (misc_register ∷ [], registered))) in
    (loaded, calls, status)

unfoldable pub skeleton_exit : List Call
skeleton_exit = misc_deregister ∷ []
