-- ===== src/ButtonDriver/Setup.antt =====
-- `skeleton_init` and `skeleton_exit` of the button driver: what they acquire and release.
use csel_workspace.Prelude.{
  ℕ, ◌+◌, ◌≡◌, refl, Bool, true, false, not, ◌&&◌, ◌==◌, List, [], ◌∷◌, ◌++◌, if◌then◌else◌, arith,
  Bool-cases, inl, inr, ◌≢◌,
}
use csel_workspace.Prelude.Int.{ℤ, pos, ==ℤ}
use csel_workspace.Prelude.Ledger.{Op, acquire, release, acquired, released}

pub data Resource : Type 0 where
  misc_device attribute : Resource
  gpio irq : ℕ → Resource

abbrev pub same : Resource → Resource → Bool
same misc_device misc_device = true
same attribute attribute = true
same (gpio p) (gpio q) = p == q
same (irq p) (irq q) = p == q
same _ _ = false

-- `enum Switch`, and the pin of each.
pub data Switch : Type 0 where
  k1_switch k2_switch k3_switch : Switch

abbrev pub pin : Switch → ℕ
pin k1_switch = 0
pin k2_switch = 2
pin k3_switch = 3

-- What the kernel answers: the status of the misc device and of the attribute's file, and whether
-- the request of a pin and of its interrupt succeed.
pub record InitEnv : Type 0 where
  pub misc_status : ℤ
  pub file_status : ℤ
  pub gpio_ok : ℕ → Bool
  pub irq_ok : ℕ → Bool

-- One of the three blocks of `skeleton_init`.
unfoldable pub request_switch : InitEnv → Switch → List (Op Resource)
request_switch env s =
    let k = pin s in
    if not (env.gpio_ok k)
    then []
    else if env.irq_ok k
    then acquire (gpio k) ∷ acquire (irq k) ∷ []
    else acquire (gpio k) ∷ release (gpio k) ∷ []

unfoldable pub skeleton_init : InitEnv → ℤ × List (Op Resource)
skeleton_init env =
    if not (==ℤ env.misc_status (pos 0))
    then (env.misc_status, [])
    else if not (==ℤ env.file_status (pos 0))
    then (env.file_status, acquire misc_device ∷ release misc_device ∷ [])
    else (
      pos 0,
      acquire misc_device
          ∷ acquire attribute
          ∷ (request_switch env k1_switch
              ++ (request_switch env k2_switch ++ request_switch env k3_switch)),
    )

unfoldable pub skeleton_exit : List (Op Resource)
skeleton_exit =
    release attribute
    ∷ release misc_device
    ∷ release (irq (pin k1_switch))
    ∷ release (gpio (pin k1_switch))
    ∷ release (irq (pin k2_switch))
    ∷ release (gpio (pin k2_switch))
    ∷ release (irq (pin k3_switch))
    ∷ release (gpio (pin k3_switch))
    ∷ []

abbrev pub held : InitEnv → Switch → ℕ
held env s = if env.gpio_ok (pin s) && env.irq_ok (pin s) then 1 else 0

-- When the misc device and its file are there, `skeleton_init` returns 0 whatever becomes of the
-- switches, and of each switch it holds the pin and the interrupt if both requests succeeded, and
-- neither otherwise. `skeleton_exit` frees each pin and each interrupt once in every case.
pub unload_switches :
    (env : InitEnv) (s : Switch)
    → env.misc_status ≡ pos 0
    → env.file_status ≡ pos 0
    → let out = skeleton_init env in
      let is_pin = same (gpio (pin s)) in
      let is_irq = same (irq (pin s)) in
      (out.0 ≡ pos 0)
      × (acquired is_pin out.1 ≡ released is_pin out.1 + held env s)
      × (acquired is_irq out.1 ≡ released is_irq out.1 + held env s)
      × (released is_pin skeleton_exit ≡ 1)
      × (released is_irq skeleton_exit ≡ 1)
unfolding skeleton_init skeleton_exit request_switch acquired released
unload_switches env k1_switch m f = (ground arith, ground arith, ground arith, refl, refl)
unload_switches env k2_switch m f = (ground arith, ground arith, ground arith, refl, refl)
unload_switches env k3_switch m f = (ground arith, ground arith, ground arith, refl, refl)

-- A `skeleton_init` that returns an error leaves nothing held.
pub init_failed_balance :
    (env : InitEnv) (r : Resource)
    → (skeleton_init env).0 ≢ pos 0
    → acquired (same r) (skeleton_init env).1 ≡ released (same r) (skeleton_init env).1
unfolding skeleton_init acquired released
init_failed_balance env r h = elim (Bool-cases (==ℤ env.misc_status (pos 0))) [
  | inr bad ↦ simp bad refl
  | inl good ↦ elim (Bool-cases (==ℤ env.file_status (pos 0))) [
    | inr bad ↦ simp (good, bad) (omega arith)
    | inl fine ↦ absurd (h (simp (good, fine) refl))
  ]
]
