-- ===== src/FanCtl/Tests.antt =====
-- Runs of the client, and examples of its theorems.
use csel_workspace.Prelude.{
  Option, some, length, replicate, ap, ◌*◌, ◌/◌, ℕ, ◌≡◌, refl, true, none, List, [], ◌∷◌, ◌++◌,
  ◌||◌, ◌&&◌, not, if◌then◌else◌, arith,
}
use csel_workspace.Prelude.Int.{pos, minus, ltb_ℤ}
use csel_workspace.Prelude.Errno.{eperm, erange}
use csel_workspace.Prelude.Decimal.{print_int, print_nat, print_from, parse_digits, is_digit}
use csel_workspace.Prelude.Decimal.RoundTrip.{parse_digits-print_nat}
use csel_workspace.Prelude.Text.{eq_text, codes}
use csel_workspace.FanDriver.{FanCtrl, reading, frequency_store, mod_timer}
use csel_workspace.FanDriver.Sysfs.{frequency_show, cpu_temp_show, emit}
use csel_workspace.FanDaemon.Fan.{Fan, set_frequency_bytes}
use csel_workspace.FanDaemon.Calls.{write, cmd_set_frequency}
use csel_workspace.FanDaemon.FanLaws.{shown_bytes}
use csel_workspace.FanDaemon.Screen.{thousandth}
use csel_workspace.FanDaemon.Socket.{Reads, request, handle_request}
use csel_workspace.FanCtl.{
  usage, failed_with, printed, main, set_freq, get_freq, get_temp, set_mode, send_command, report,
}
use csel_workspace.FanCtl.EndToEnd.{ReadsNumbers, set_reaches_driver}
use csel_workspace.FanCtl.Laws.{
  daemon, set_freq_outcome, get_prints_driver, main_fault, is_fault, is_empty,
}

abbrev driver : FanCtrl
driver = record { gpio_pin = pos 363; gpio_state = 1; manual_mode = true; frequency = 42 }

abbrev fan : Fan
fan = record { manual_mode = true; manual_fd = pos 3; freq_fd = pos 4; temp_fd = pos 5 }

abbrev reads : Reads
reads = record { freq = none; temp = none; junk = [] }

abbrev name : List ℕ
name = codes "fan-ctl"

test_usage : main (daemon fan reads) (name ∷ []) ≡ usage
unfolding main
test_usage = refl

test_mode : main (daemon fan reads) (name ∷ codes "get-mode" ∷ []) ≡ printed (codes "1\n")
unfolding main eq_text report send_command handle_request print_int print_nat print_from
test_mode = refl

test_set_freq_outcome : main (daemon fan reads) (name ∷ set_freq ∷ print_int (pos 101) ∷ []) ≡ (
    if not fan.manual_mode
    then failed_with (minus eperm)
    else if ltb_ℤ (pos 101) (pos 1) || ltb_ℤ (pos 100) (pos 101)
    then failed_with (minus erange)
    else printed (b'0' ∷ 10 ∷ []))
test_set_freq_outcome = set_freq_outcome fan reads name (pos 101) (omega arith, omega arith)

get_prints_driver_example :
    let r' = record reads {
      freq = shown_bytes (frequency_show driver);
      temp = shown_bytes (cpu_temp_show (reading (pos 39500)));
    } in
    ((text : List ℕ) × (frequency_show driver ≡ emit text)
      × (main (daemon fan r') (name ∷ get_freq ∷ []) ≡ printed text))
    × (main (daemon fan r') (name ∷ get_temp ∷ [])
        ≡ printed (print_int (thousandth (pos 39500)) ++ (10 ∷ [])))
get_prints_driver_example =
    get_prints_driver fan reads driver (pos 39500) name (omega arith) (omega arith) (omega arith)

test_main_fault :
    is_fault (main (daemon fan reads) (name ∷ set_freq ∷ []))
    ≡ (is_empty [] && (eq_text set_freq set_mode || eq_text set_freq set_freq))
test_main_fault = main_fault (daemon fan reads) name set_freq []

-- A reading of digits that stands for the kernel's.
abbrev kstrtou32 : List ℕ → Option ℕ
kstrtou32 text = some (parse_digits 0 text)

kstrtou32-ReadsNumbers : ReadsNumbers kstrtou32
unfolding is_digit
kstrtou32-ReadsNumbers n rest h = ap some (parse_digits-print_nat n (0 ∷ rest) refl)

abbrev full : Reads
full = record reads { junk = replicate 19 7 }

set_reaches_driver_example :
    let bytes = set_frequency_bytes (pos 8) full.junk in
    let fc' = record driver { frequency = 8 } in
    let r' = record full { freq = shown_bytes (frequency_show fc') } in
    (main (daemon fan full) (name ∷ set_freq ∷ print_int (pos 8) ∷ []) ≡ printed (b'0' ∷ 10 ∷ []))
    × ((handle_request fan full (request cmd_set_frequency (pos 8))).1
        ≡ write fan.freq_fd bytes ∷ [])
    × (frequency_store driver (kstrtou32 bytes) (length bytes)
        ≡ some (fc', mod_timer (1000 / (2 * 8)) ∷ [], pos 20))
    × (main (daemon fan r') (name ∷ get_freq ∷ []) ≡ printed (print_nat 8 ++ (10 ∷ [])))
set_reaches_driver_example =
    set_reaches_driver kstrtou32 fan full driver name 8 kstrtou32-ReadsNumbers refl refl
      (omega arith) (omega arith) (omega arith)
