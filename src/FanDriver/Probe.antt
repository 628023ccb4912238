-- ===== src/FanDriver/Probe.antt =====
-- `fan_ctrl_probe`: every early return, and what it leaves requested.
use csel_workspace.Prelude.{
  Option-cases, inl, inr, ℕ, zero, suc, ◌≡◌, ◌≢◌, Bool, true, false, Option, none, some, List, [],
  ◌∷◌, ◌++◌, arith, if◌then◌else◌, not, ◌&&◌,
}
use csel_workspace.Prelude.Int.{ℤ, pos, minus, ==ℤ}
use csel_workspace.Prelude.Errno.{enomem, einval}
use csel_workspace.FanDriver.{
  FanCtrl, Call, gpio_request, gpio_direction_output, gpio_free, timer_setup, Thermal, failed,
  reading, fan_toggle_timer, sample, drive, rearm, period_ms, temp_to_freq,
}

-- What the kernel answers during the probe. `zone` is the error number of the thermal zone's lookup.
pub record ProbeEnv : Type 0 where
  pub allocated : Bool
  pub named_gpio : ℤ
  pub gpio_is_valid : Bool
  pub requested : ℤ
  pub directed : ℤ
  pub zone : Option ℕ
  pub groups : ℤ
  pub first : Thermal

abbrev pub Outcome : Type 0
Outcome = ℤ × List Call × Option FanCtrl

-- The state that `devm_kzalloc` and the assignments leave when the probe succeeds.
abbrev pub fresh : ℤ → FanCtrl
fresh pin = record { gpio_pin = pin; gpio_state = 0; manual_mode = false; frequency = 0 }

-- `timer_setup` and the first run of the callback.
start_timer : ProbeEnv → List Call → Option Outcome
start_timer env calls = elim (fan_toggle_timer (fresh env.named_gpio) env.first) [
  | none ↦ none
  | some (fc, more) ↦ some (pos 0, calls ++ (timer_setup ∷ more), some fc)
]

-- From the lookup of the thermal zone on; `calls` are those made so far.
finish_probe : ProbeEnv → List Call → Option ℕ → Option Outcome
unfolding start_timer
finish_probe env calls (some e) = some (minus e, calls ++ (gpio_free env.named_gpio ∷ []), none)
finish_probe env calls none =
    if ==ℤ env.groups (pos 0)
    then start_timer env calls
    else some (env.groups, calls ++ (gpio_free env.named_gpio ∷ []), none)

-- `fan_ctrl_probe`: the value returned, the calls made, and the device's state if it was bound.
unfoldable pub fan_ctrl_probe : ProbeEnv → Option Outcome
unfolding finish_probe
fan_ctrl_probe env =
    let pin = env.named_gpio in
    let request = gpio_request pin env.requested in
    let direct = gpio_direction_output pin 0 in
    if not env.allocated
    then some (minus enomem, [], none)
    else if not env.gpio_is_valid
    then some (minus einval, [], none)
    else if not (==ℤ env.requested (pos 0))
    then some (env.requested, request ∷ [], none)
    else if not (==ℤ env.directed (pos 0))
    then some (env.directed, request ∷ direct ∷ gpio_free pin ∷ [], none)
    else finish_probe env (request ∷ direct ∷ []) env.zone

-- How often pin `q` is held after a call, where it was held `n` times before; `none` if it is freed
-- and not held.
pub hold : ℤ → Option ℕ → Call → Option ℕ
hold q none call = none
hold q (some n) (gpio_request p r) = some (if ==ℤ p q && ==ℤ r (pos 0) then suc n else n)
hold q (some zero) (gpio_free p) = if ==ℤ p q then none else some 0
hold q (some (suc n)) (gpio_free p) = some (if ==ℤ p q then n else suc n)
hold q (some n) _ = some n

pub held : ℤ → Option ℕ → List Call → Option ℕ
unfolding hold
held q n [] = n
held q n (call ∷ calls) = held q (hold q n call) calls

-- In automatic mode the callback divides by no zero.
pub toggle_auto_total :
    (fc : FanCtrl) (th : Thermal)
    → fc.manual_mode ≡ false
    → fc.frequency ≡ 0
    → fan_toggle_timer fc th ≢ none
unfolding fan_toggle_timer sample drive rearm period_ms temp_to_freq
toggle_auto_total fc (failed e) m f = ground arith
toggle_auto_total fc th m f = ground arith

-- What a finished probe left behind: a bound device that has the pin of the device tree, with this
-- pin held once and no other, or an error and no pin held. A probe that faults leaves nothing good.
abbrev pub Settles : ℤ → Option Outcome → Type 0
Settles pin none = ⊥
Settles pin (some (ret, calls, some fc)) =
    (ret ≡ pos 0)
    × (fc.gpio_pin ≡ pin)
    × ((q : ℤ) → held q (some 0) calls ≡ some (if ==ℤ pin q then 1 else 0))
Settles pin (some (ret, calls, none)) = (ret ≢ pos 0) × ((q : ℤ) → held q (some 0) calls ≡ some 0)

abbrev pub requested : ℤ → ℤ → List Call
requested p r = gpio_request p r ∷ gpio_direction_output p 0 ∷ []

-- The first run of the callback returns and changes no pin's ownership.
module _ (env : ProbeEnv) (r : ℤ) (got : ==ℤ r (pos 0) ≡ true) where
  start_timer-Settles :
      (th : Thermal)
      → Settles env.named_gpio
          (start_timer (record env { first = th }) (requested env.named_gpio r))
  unfolding start_timer fan_toggle_timer sample drive rearm period_ms temp_to_freq held
  start_timer-Settles (failed e) = ground arith
  start_timer-Settles (reading t) = ground arith

  finish_probe-Settles :
      (z : Option ℕ)
      → z ≢ some 0
      → Settles env.named_gpio (finish_probe env (requested env.named_gpio r) z)
  unfolding finish_probe held
  finish_probe-Settles (some e) z = ground arith
  finish_probe-Settles none z = ground (arith, start_timer-Settles env.first)

-- The probe returns on every answer of the kernel. If it returns 0 it has bound a device, which has
-- the pin of the device tree, and holds this pin once and no other; if it returns an error it holds
-- no pin. It frees none that it does not hold.
pub probe-Settles :
    (env : ProbeEnv) → env.zone ≢ some 0 → Settles env.named_gpio (fan_ctrl_probe env)
unfolding fan_ctrl_probe held
probe-Settles env z = ground (
  arith,
  λ (h : ==ℤ env.requested (pos 0) ≡ true). finish_probe-Settles env env.requested h env.zone z,
)

-- The timer's callback ran on the fresh state and left `fc`, behind the calls before it.
abbrev pub Started : ProbeEnv → FanCtrl → List Call → Type 0
Started env fc calls =
    (more : List Call) × (fan_toggle_timer (fresh env.named_gpio) env.first ≡ some (fc, more))
    × (calls ≡ requested env.named_gpio env.requested ++ (timer_setup ∷ more))

module _ (env : ProbeEnv) {fc : FanCtrl} {calls : List Call} {ret : ℤ} where
  start_timer-Started :
      start_timer env (requested env.named_gpio env.requested) ≡ some (ret, calls, some fc)
      → Started env fc calls
  unfolding start_timer
  start_timer-Started e = elim (Option-cases (fan_toggle_timer (fresh env.named_gpio) env.first)) [
    | inl p ↦ absurd (ground arith)
    | inr ((fc', more), p) ↦ (more, ground arith, ground arith)
  ]

  -- A probe that binds a device ends with the first run of the callback on the fresh state.
  pub fan_ctrl_probe-Started :
      fan_ctrl_probe env ≡ some (ret, calls, some fc) → Started env fc calls
  unfolding fan_ctrl_probe
  fan_ctrl_probe-Started e = start_timer-Started (ground arith)
