-- ===== src/FanDaemon/Tests.antt =====
-- Runs of the daemon's parts, and the theorems at concrete inputs.
use csel_workspace.Prelude.{
  ℕ, suc, ◌+◌, ◌-◌, ◌*◌, ◌<◌, ◌≡◌, refl, true, none, some, List, [], ◌∷◌, ◌++◌, length, replicate,
  arith, min,
}
use Prim.Native.Nat.{max}
use csel_workspace.Prelude.Int.{ℤ, pos, negsuc, minus}
use csel_workspace.Prelude.Machine.{to_int}
use csel_workspace.Prelude.Errno.{erange}
use csel_workspace.Prelude.Decimal.{atoi, print_nat, print_int, is_digit}
use csel_workspace.Prelude.Text.{codes}
use csel_workspace.FanDriver.{FanCtrl, reading}
use csel_workspace.FanDriver.Sysfs.{frequency_show, cpu_temp_show}
use csel_workspace.FanDaemon.Calls.{
  send, close, client_event, button_event, cmd_set_mode, cmd_get_mode, cmd_set_frequency,
  cmd_get_frequency, cmd_get_temp,
}
use csel_workspace.FanDaemon.Fan.{
  Fan, fan_read_frequency, fan_get_cpu_temp, fan_set_frequency, fan_increase_frequency,
  fan_decrease_frequency, set_frequency_bytes,
}
use csel_workspace.FanDaemon.FanLaws.{shown_bytes, read-show, step-show, atoi-set_frequency_bytes}
use csel_workspace.FanDaemon.Gpios.{
  Gpios, GpioFile, gpios_init, gpios_init_accesses, set_led, is_button_pressed,
}
use csel_workspace.FanDaemon.Gpios.Balance.{opens, closes, count_fds, gpios_init_balance}
use csel_workspace.FanDaemon.Font.{font}
use csel_workspace.FanDaemon.Oled.{ssd1306_set_position, font_index, ssd1306_putc, ssd1306_puts}
use csel_workspace.FanDaemon.Oled.Laws.{
  all_data, ssd1306_putc_lem, page_of, column_of, ssd1306_set_position_lem, text_length,
  length-ssd1306_puts,
}
use csel_workspace.FanDaemon.Screen.{screen_refresh, freq_text, temp_text}
use csel_workspace.FanDaemon.Screen.Lines.{above, columns, over, screen_refresh_shrinks}
use csel_workspace.FanDaemon.Socket.{Reads, answer, request, handle_request, socket_handle_client}
use csel_workspace.FanDaemon.SocketLaws.{
  set_frequency_cases, set_mode-get_mode, get-show, get_failed, sends, one_answer,
}
use csel_workspace.FanDaemon.Events.{
  Daemon, Inputs, button1_press, socket_client_request, process_event, start, run, deref,
}
use csel_workspace.FanDaemon.Pool.{PoolInv, run-PoolInv}
use csel_workspace.FanDaemon.Pool.Occurrences.{client, occurrences, request-Removed}
use csel_workspace.FanDaemon.Stale.{stale_registration, after_accept}
use csel_workspace.FanDaemon.Buttons.{button_cases}

abbrev driver : FanCtrl
driver = record { gpio_pin = pos 363; gpio_state = 1; manual_mode = true; frequency = 42 }

abbrev slow : FanCtrl
slow = record driver { frequency = 7 }

abbrev fan : Fan
fan = record { manual_mode = true; manual_fd = pos 3; freq_fd = pos 4; temp_fd = pos 5 }

abbrev junk : List ℕ
junk = replicate 20 255

abbrev reads : Reads
reads = record { freq = some (codes "42\n"); temp = some (codes "39500\n"); junk = junk }

abbrev no_reads : Reads
no_reads = record { freq = none; temp = none; junk = junk }

abbrev gpios : Gpios
gpios = record { led_fd = pos 6; button_fds = pos 7 ∷ pos 8 ∷ pos 9 ∷ [] }

-- `pos 20` connects.
abbrev inputs : Inputs
inputs = record {
  button = some (codes "1\n");
  button_junk = 0;
  reads = reads;
  accepted = pos 20;
  received = some (request cmd_get_mode (pos 0));
}

abbrev idle : Daemon
idle = record {
  fan = fan;
  gpios = gpios;
  screen_timer_fd = pos 10;
  socket_server_fd = pos 11;
  client_events = replicate 8 (client (pos 0));
  client_event_count = 0;
}

-- Two clients, `pos 20` and `pos 21`, are connected.
abbrev busy : Daemon
busy = record idle {
  client_events = client (pos 20) ∷ client (pos 21) ∷ replicate 6 (client (pos 0));
  client_event_count = 2;
}

reads_text : fan_read_frequency reads.freq ≡ pos 42
unfolding fan_read_frequency atoi is_digit to_int
reads_text = refl

lines : (freq_text (pos 42) ≡ codes "42Hz") × (temp_text (pos 39500) ≡ codes "Temp: 39'C  ")
unfolding freq_text temp_text print_int print_nat
lines = (refl, refl)

get_mode :
    (socket_handle_client fan reads (pos 20) (some (request cmd_get_mode (pos 0)))).1
    ≡ send (pos 20) (record { status = pos 0; value = pos 1 }) ∷ close (pos 20) ∷ []
unfolding socket_handle_client handle_request
get_mode = refl

test_read-show :
    (fan_read_frequency (shown_bytes (frequency_show driver)) ≡ pos 42)
    × (fan_get_cpu_temp (shown_bytes (cpu_temp_show (reading (negsuc 4999)))) ≡ negsuc 4999)
unfolding to_int
test_read-show = read-show driver (negsuc 4999) (omega arith) (omega arith) (omega arith)

step-show_example :
    (fan_increase_frequency fan (shown_bytes (frequency_show driver)) junk
      ≡ fan_set_frequency fan (pos (min 100 (42 + 1))) junk)
    × (fan_decrease_frequency fan (shown_bytes (frequency_show driver)) junk
        ≡ fan_set_frequency fan (pos (max 1 (42 - 1))) junk)
step-show_example = step-show fan driver junk (omega arith)

test_atoi-set_frequency_bytes :
    (atoi (set_frequency_bytes (pos 100) junk) ≡ pos 100)
    × (length (set_frequency_bytes (pos 100) junk) ≡ 20)
test_atoi-set_frequency_bytes =
    atoi-set_frequency_bytes (pos 100) junk (omega arith) (omega arith) (omega arith)

-- The export file cannot be opened.
abbrev some_open : GpioFile → ℤ
some_open GpioFile.export = negsuc 0
some_open _ = pos 5

gpios_init_balance_example :
    opens (pos 9) (gpios_init_accesses some_open)
    ≡ closes (pos 9) (gpios_init_accesses some_open)
      + count_fds (pos 9) ((gpios_init some_open).led_fd ∷ (gpios_init some_open).button_fds)
gpios_init_balance_example = gpios_init_balance some_open (pos 9)

test_ssd1306_putc :
    (font_index 200 < length font)
    × (length (ssd1306_putc 200) ≡ 8)
    × (all_data (ssd1306_putc 200) ≡ true)
test_ssd1306_putc = ssd1306_putc_lem 200

length-ssd1306_puts_example :
    length (ssd1306_puts (codes "Freq: ")) ≡ 8 * text_length (codes "Freq: ")
length-ssd1306_puts_example = length-ssd1306_puts (codes "Freq: ")

test_ssd1306_set_position :
    (page_of (ssd1306_set_position 15 6) ≡ 6) × (column_of (ssd1306_set_position 15 6) ≡ 8 * 15)
test_ssd1306_set_position = ssd1306_set_position_lem 15 6 (omega arith) (omega arith)

screen_refresh_shrinks_example :
    (screen_refresh fan (shown_bytes (frequency_show driver)) none
      ≡ above fan none ++ (ssd1306_set_position 0 6 ++ columns 42))
    × (screen_refresh fan (shown_bytes (frequency_show slow)) none
        ≡ above fan none ++ (ssd1306_set_position 0 6 ++ columns 7))
    × (over (columns 7) (columns 42) ≡ columns 7 ++ ssd1306_putc b'z')
screen_refresh_shrinks_example =
    screen_refresh_shrinks fan none driver slow (omega arith) (omega arith) (omega arith)

test_set_frequency_cases :
    handle_request fan reads (request cmd_set_frequency (pos 150))
    ≡ answer fan (minus erange) (pos 0)
test_set_frequency_cases = (set_frequency_cases fan reads (pos 150)).2 refl (omega arith)

test_set_mode_get_mode : (handle_request fan reads (request cmd_set_mode (pos 0))).2.status ≡ pos 0
test_set_mode_get_mode = (set_mode-get_mode fan reads (pos 0)).1

test_get-show :
    handle_request fan
      (record reads {
        freq = shown_bytes (frequency_show driver);
        temp = shown_bytes (cpu_temp_show (reading (pos 39500)));
      })
      (request cmd_get_frequency (pos 0))
    ≡ answer fan (pos 0) (pos 42)
test_get-show = (get-show fan reads driver (pos 39500) (omega arith) (omega arith) (omega arith)).0

test_failed_reads :
    (handle_request fan no_reads (request cmd_get_frequency (pos 0))
      ≡ answer fan (minus 1) (minus 1))
    × (handle_request fan no_reads (request cmd_get_temp (pos 0)) ≡ answer fan (pos 0) (pos 0))
test_failed_reads = get_failed fan no_reads refl refl

one_answer_example : sends (socket_handle_client fan reads (pos 20) none).1 ≡ 1
one_answer_example = (one_answer fan reads (pos 20) none).1

run-PoolInv_example :
    PoolInv (run (start fan gpios (pos 10) (pos 11)) ((inputs, button_event 0) ∷ [])).0
run-PoolInv_example = run-PoolInv fan gpios (pos 10) (pos 11) ((inputs, button_event 0) ∷ [])

request-Removed_example :
    suc (process_event busy inputs socket_client_request (pos 20)).0.client_event_count ≡ 2
unfolding occurrences
request-Removed_example = (request-Removed busy inputs (pos 20) (omega arith) (omega arith)).0

busy-PoolInv : PoolInv busy
busy-PoolInv = omega arith

stale_registration_example :
    deref busy (client_event 1)
    ≡ deref (after_accept busy busy-PoolInv (omega arith) inputs inputs (pos 11)) (client_event 0)
stale_registration_example =
    (stale_registration busy busy-PoolInv (omega arith) inputs inputs (pos 11) refl inputs).0

button_cases_example :
    process_event idle
      (record inputs { reads = record reads { freq = shown_bytes (frequency_show driver) } })
      button1_press
      (pos 7)
    ≡ (idle, set_led gpios true ++ fan_set_frequency fan (pos (min 100 (42 + 1))) junk)
unfolding is_button_pressed
button_cases_example =
    ((button_cases idle
        (record inputs { reads = record reads { freq = shown_bytes (frequency_show driver) } })
        (pos 7) driver (omega arith) refl).1
      refl refl).0
