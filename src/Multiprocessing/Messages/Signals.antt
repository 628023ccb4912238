-- ===== src/Multiprocessing/Messages/Signals.antt =====
-- The signal handler of exercise_1: its message fits its buffer.
use csel_workspace.Prelude.{ℕ, ◌^◌, ◌≤◌, ◌<◌, ◌≡◌, ap, ◌++◌, length, length-append, take_all, arith}
use csel_workspace.Prelude.Decimal.{print_nat}
use csel_workspace.Prelude.Decimal.RoundTrip.{length-print_nat}
use csel_workspace.Prelude.Text.{codes}
use csel_workspace.Multiprocessing.Messages.{signal_name, handler_text, signal_handler}

length-signal_name : (signum : ℕ) → length (signal_name signum) ≤ 7
unfolding signal_name
length-signal_name signum = ground arith

length-handler_text : (pid signum : ℕ) → pid < 2 ^ 32 → length (handler_text pid signum) ≤ 60
length-handler_text pid signum h =
    let name = signal_name signum in
    let end = codes " received and ignored.\n" in
    omega (
      arith,
      length-print_nat pid h,
      length-signal_name signum,
      length-append name end,
      length-append (codes "] Signal ") (name ++ end),
      length-append (print_nat pid) (codes "] Signal " ++ (name ++ end)),
      length-append (codes "[PID ") (print_nat pid ++ (codes "] Signal " ++ (name ++ end))),
    )

-- For every process id of 32 bits and every signal: the message of the handler is written whole, and
-- `write` takes no byte from behind the text in the buffer of 128 bytes.
pub handler_fits :
    (pid signum : ℕ)
    → pid < 2 ^ 32
    → (signal_handler pid signum ≡ (handler_text pid signum, length (handler_text pid signum)))
      × (length (handler_text pid signum) < 128)
unfolding signal_handler
handler_fits pid signum h =
    let l = length-handler_text pid signum h in
    (
      ap (λ t. (t, length (handler_text pid signum)))
          (take_all 127 (handler_text pid signum) (omega (arith, l))),
      omega (arith, l),
    )
