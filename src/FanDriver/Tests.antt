-- ===== src/FanDriver/Tests.antt =====
-- Runs of the driver, and the theorems at concrete inputs.
use csel_workspace.Prelude.{
  ℕ, ◌+◌, ◌*◌, ◌≤◌, ◌<◌, ◌≡◌, ◌≢◌, refl, true, false, some, none, List, [], ◌∷◌, arith,
}
use csel_workspace.Prelude.Int.{pos, negsuc, ◌≤ℤ◌}
use csel_workspace.FanDriver.{
  FanCtrl, Call, gpio_request, gpio_direction_output, gpio_set_value, mod_timer, timer_setup,
  failed, reading, fan_toggle_timer, temp_to_freq, period_ms,
}
use csel_workspace.FanDriver.Frequency.{temp_to_freq_cases, temp_to_freq_drops, period_ms_bounds}
use csel_workspace.FanDriver.Probe.{ProbeEnv, fan_ctrl_probe, Settles, probe-Settles, fresh}
use csel_workspace.FanDriver.System.{System, after, Reach, bound}
use csel_workspace.FanDriver.Safety.{Inv, Reach-Inv}
use csel_workspace.FanDriver.Stopped.{here, stopped_in_auto}

-- 42 degrees; the kernel answers without an error.
abbrev warm : ProbeEnv
warm = record {
  allocated = true;
  named_gpio = pos 363;
  gpio_is_valid = true;
  requested = pos 0;
  directed = pos 0;
  zone = none;
  groups = pos 0;
  first = reading (pos 42000);
}

abbrev no_groups : ProbeEnv
no_groups = record warm { groups = negsuc 11 }

abbrev blind : ProbeEnv
blind = record warm { first = failed 11 }

abbrev running : FanCtrl
running = record { gpio_pin = pos 363; gpio_state = 1; manual_mode = false; frequency = 5 }

abbrev manual : FanCtrl
manual = record running { manual_mode = true }

abbrev start_calls : List Call
start_calls =
    gpio_request (pos 363) (pos 0)
    ∷ gpio_direction_output (pos 363) 0
    ∷ timer_setup
    ∷ gpio_set_value (pos 363) 1
    ∷ mod_timer 100
    ∷ []

probe_warm : fan_ctrl_probe warm ≡ some (pos 0, start_calls, some running)
unfolding fan_ctrl_probe fan_toggle_timer temp_to_freq
probe_warm = refl

abbrev blind_calls : List Call
blind_calls =
    gpio_request (pos 363) (pos 0)
    ∷ gpio_direction_output (pos 363) 0
    ∷ timer_setup
    ∷ gpio_set_value (pos 363) 0
    ∷ []

probe_blind : fan_ctrl_probe blind ≡ some (pos 0, blind_calls, some (fresh (pos 363)))
unfolding fan_ctrl_probe fan_toggle_timer
probe_blind = refl

toggle_twice :
    fan_toggle_timer running (reading (pos 50000))
    ≡ some (record running { gpio_state = 0 }, gpio_set_value (pos 363) 0 ∷ mod_timer 100 ∷ [])
unfolding fan_toggle_timer
toggle_twice = refl

temp_to_freq_drops_example : temp_to_freq (pos 50000) < temp_to_freq (pos 38000)
temp_to_freq_drops_example =
    temp_to_freq_drops (pos 38000) (pos 50000) (omega arith) (omega arith) (omega arith)

temp_to_freq_cases_example :
    (pos 41000 ≤ℤ pos 34999 → temp_to_freq (pos 41000) ≡ 2)
    × (pos 35000 ≤ℤ pos 41000 → pos 41000 ≤ℤ pos 40000 → temp_to_freq (pos 41000) ≡ 10)
    × (pos 40001 ≤ℤ pos 41000 → temp_to_freq (pos 41000) ≡ 5)
    × (temp_to_freq (pos 41000) ≢ 20)
temp_to_freq_cases_example = temp_to_freq_cases (pos 41000)

test_period_ms_bounds :
    (p : ℕ) × (period_ms 5 ≡ some p) × (1 ≤ p) × (2 * 5 * p ≤ 1000) × (1000 < 2 * 5 * (p + 1))
test_period_ms_bounds = period_ms_bounds 5 (omega arith) (omega arith)

probe-Settles_example : Settles no_groups.named_gpio (fan_ctrl_probe no_groups)
probe-Settles_example = probe-Settles no_groups (λ e. cc)

abbrev warm_system : System
warm_system = record { fc = running; armed = true; level = 1 }

warm_reached : Reach (after false 0 running start_calls)
warm_reached = bound warm probe_warm

Reach-Inv_example : Inv (after false 0 running start_calls)
Reach-Inv_example = Reach-Inv warm_reached

blind_reached : Reach (after false 0 (fresh (pos 363)) blind_calls)
blind_reached = bound blind probe_blind

blind_unarmed : (after false 0 (fresh (pos 363)) blind_calls).armed ≡ false
unfolding after
blind_unarmed = refl

stopped_in_auto_example :
    ((after false 0 (fresh (pos 363)) blind_calls).armed ≡ false)
    × ((after false 0 (fresh (pos 363)) blind_calls).level ≡ 0)
stopped_in_auto_example = stopped_in_auto blind_reached blind_unarmed here
