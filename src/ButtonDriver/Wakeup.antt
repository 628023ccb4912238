-- ===== src/ButtonDriver/Wakeup.antt =====
-- The interrupt handler against a reader that waits: the order of its two statements.
use mathlib.Core.List.{append-nil}
use csel_workspace.Prelude.{
  ℕ, zero, suc, ◌≡◌, refl, ◌==◌, List, [], ◌∷◌, ◌++◌, if◌then◌else◌, replicate, ap, sym, ◌∙◌, ◌⊎◌,
  inl, inr, ◌≢◌, arith,
}
use csel_workspace.ButtonDriver.{atomic_inc}

-- A reader in `wait_event_interruptible`: asleep on the queue, woken and about to test the condition
-- again, or through.
pub data Waiter : Type 0 where
  asleep woken through : Waiter

-- The statements of the handler, and the test of the waiter.
pub data Micro : Type 0 where
  wake_up increment check : Micro

-- `gpio_isr`, whichever switch is pressed: the switch decides on the message only.
abbrev pub gpio_isr : List Micro
gpio_isr = wake_up ∷ increment ∷ []

unfoldable pub micro : Micro → ℕ → Waiter → ℕ × Waiter
micro wake_up c asleep = (c, woken)
micro wake_up c woken = (c, woken)
micro wake_up c through = (c, through)
micro increment c w = (atomic_inc c, w)
micro check c woken = (c, if c == 0 then asleep else through)
micro check c asleep = (c, asleep)
micro check c through = (c, through)

unfoldable pub micros : List Micro → ℕ → Waiter → ℕ × Waiter
micros [] c w = (c, w)
micros (m ∷ ms) c w = let (c', w') = micro m c w in micros ms c' w'

-- The statements of the handler with the reader's tests between them: `tests i` of them before
-- statement `i`, and the last ones behind it.
pub weave : (ℕ → ℕ) → ℕ → List Micro → List Micro
weave tests i [] = replicate (tests i) check
weave tests i (m ∷ ms) = replicate (tests i) check ++ (m ∷ weave tests (suc i) ms)

-- Where the reader is after `n` tests of the counter `c`.
abbrev tested : ℕ → ℕ → Waiter → Waiter
tested n c asleep = asleep
tested n c woken = if n == 0 then woken else if c == 0 then asleep else through
tested n c through = through

tests_lem :
    (n c : ℕ) (w : Waiter) (ms : List Micro)
    → micros (replicate n check ++ ms) c w ≡ micros ms c (tested n c w)
unfolding micros micro
tests_lem zero c asleep ms = refl
tests_lem zero c woken ms = refl
tests_lem zero c through ms = refl
tests_lem (suc n) c asleep ms = tests_lem n c asleep ms
tests_lem (suc n) c woken ms = ground (arith, tests_lem n c asleep ms, tests_lem n c through ms)
tests_lem (suc n) c through ms = tests_lem n c through ms

tests_end : (n c : ℕ) (w : Waiter) → micros (replicate n check) c w ≡ (c, tested n c w)
unfolding micros
tests_end n c w =
    ap (λ ms. micros ms c w) (sym (append-nil (replicate n check))) ∙ tests_lem n c w []

zero_or_not : (n : ℕ) → (n ≡ 0) ⊎ (n ≢ 0)
zero_or_not zero = inl refl
zero_or_not (suc n) = inr (λ e. omega (arith, e))

-- A reader sleeps, the counter is 0, and the handler runs once, while the reader may test its
-- condition any number of times before, between and behind its two statements. The counter ends at
-- 1. If the reader tested between the two statements, it is asleep at the end, however often it tests
-- behind them; if it did not, then it is through as soon as it tests behind them.
pub wakeup_race :
    (tests : ℕ → ℕ)
    → micros (weave tests 0 gpio_isr) 0 asleep
      ≡ (1, if tests 1 == 0 then (if tests 2 == 0 then woken else through) else asleep)
unfolding micros micro atomic_inc weave
wakeup_race tests =
    tests_lem (tests 0) 0 asleep _ ∙ tests_lem (tests 1) 0 woken _ ∙ elim (zero_or_not (tests 1)) [
      | inl e ↦ ground (arith, e, tests_end (tests 2) 1 woken)
      | inr e ↦ ground (arith, e, tests_end (tests 2) 1 asleep)
    ]
