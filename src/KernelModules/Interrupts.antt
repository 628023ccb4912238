-- ===== src/KernelModules/Interrupts.antt =====
-- src/02_modules/exercice08/skeleton.c: the interrupts of three buttons, shared with other handlers.
use csel_workspace.Prelude.{
  ℕ, ◌≡◌, refl, Bool, false, not, List, [], ◌∷◌, ◌++◌, ◌==◌, if◌then◌else◌, arith,
}
use csel_workspace.Prelude.Ledger.{Op, acquire, release, acquired, released}

-- `enum Switch`, whose values from 0 on are the `dev_id` of the handlers, and the pin of each.
pub data Switch : Type 0 where
  k1_switch k2_switch k3_switch : Switch

abbrev pub dev_id : Switch → ℕ
dev_id k1_switch = 0
dev_id k2_switch = 1
dev_id k3_switch = 2

abbrev pub pin : Switch → ℕ
pin k1_switch = 0
pin k2_switch = 2
pin k3_switch = 3

pub data Resource : Type 0 where
  gpio irq : ℕ → Resource

abbrev pub same : Resource → Resource → Bool
same (gpio p) (gpio q) = p == q
same (irq p) (irq q) = p == q
same _ _ = false

-- What the kernel answers: whether a pin is granted, and whether `request_irq` of a shared handler
-- for a pin and a `dev_id` succeeds.
pub record Env : Type 0 where
  pub gpio_ok : ℕ → Bool
  pub shared_irq_ok : ℕ → ℕ → Bool

-- One of the three blocks of `skeleton_init`.
unfoldable pub request_switch : Env → Switch → List (Op Resource)
request_switch env s =
    let k = pin s in
    if not (env.gpio_ok k)
    then []
    else if env.shared_irq_ok k (dev_id s)
    then acquire (gpio k) ∷ acquire (irq k) ∷ []
    else acquire (gpio k) ∷ release (gpio k) ∷ []

-- `skeleton_init`, which always returns 0.
unfoldable pub skeleton_init : Env → List (Op Resource)
skeleton_init env =
    request_switch env k1_switch ++ (request_switch env k2_switch ++ request_switch env k3_switch)

unfoldable pub release_switch : Switch → List (Op Resource)
release_switch s = release (gpio (pin s)) ∷ release (irq (pin s)) ∷ []

unfoldable pub skeleton_exit : List (Op Resource)
skeleton_exit = release_switch k1_switch ++ (release_switch k2_switch ++ release_switch k3_switch)

-- When `request_irq` refuses every shared handler whose `dev_id` is NULL, as the kernel does: the
-- module never has the interrupt of the first button and does not keep its pin, whatever else the
-- kernel answers, and its exit frees both.
pub first_button_dead :
    (env : Env)
    → ((p : ℕ) → env.shared_irq_ok p 0 ≡ false)
    → let ops = skeleton_init env in
      (acquired (same (irq (pin k1_switch))) ops ≡ 0)
      × (acquired (same (gpio (pin k1_switch))) ops ≡ released (same (gpio (pin k1_switch))) ops)
      × (released (same (irq (pin k1_switch))) skeleton_exit ≡ 1)
      × (released (same (gpio (pin k1_switch))) skeleton_exit ≡ 1)
unfolding skeleton_init request_switch skeleton_exit release_switch acquired released
first_button_dead env h = (ground (arith, h 0), ground (arith, h 0), refl, refl)
