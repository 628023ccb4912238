-- ===== src/FanCtl/EndToEnd.antt =====
-- A frequency on its way from the client through the daemon into the driver, and back.
use csel_workspace.Prelude.{
  ℕ, ◌*◌, ◌/◌, ◌^◌, ◌≤◌, ◌<◌, ◌≡◌, true, Option, some, List, [], ◌∷◌, ◌++◌, length, arith, ap, ◌∙◌,
  take, ◌-◌,
}
use csel_workspace.Prelude.Int.{pos}
use csel_workspace.Prelude.Decimal.{print_nat, print_int}
use csel_workspace.Prelude.Decimal.RoundTrip.{print_int_pos, length-print_int}
use csel_workspace.Prelude.Text.{eq_text}
use csel_workspace.FanDriver.{FanCtrl, mod_timer, frequency_store}
use csel_workspace.FanDriver.Store.{frequency_store_cases}
use csel_workspace.FanDriver.Sysfs.{frequency_show}
use csel_workspace.FanDaemon.Calls.{write, cmd_set_frequency}
use csel_workspace.FanDaemon.Fan.{Fan, fan_set_frequency, set_frequency_bytes}
use csel_workspace.FanDaemon.FanLaws.{
  shown_bytes, set_frequency_bytes-split, atoi-set_frequency_bytes, read-show_small,
}
use csel_workspace.FanDaemon.Socket.{Reads, request, handle_request}
use csel_workspace.FanDaemon.SocketLaws.{set_frequency_cases}
use csel_workspace.FanCtl.{printed, main, set_freq, get_freq, report, send_command}
use csel_workspace.FanCtl.Laws.{daemon, set_freq_outcome}

-- What the driver relies on of the kernel's `kstrtou32`: a number's text that a NUL ends is read as
-- that number.
abbrev pub ReadsNumbers : (List ℕ → Option ℕ) → Type 0
ReadsNumbers kstrtou32 =
    (n : ℕ) (rest : List ℕ) → n < 2 ^ 32 → kstrtou32 (print_nat n ++ (0 ∷ rest)) ≡ some n

bytes_reach_driver :
    (kstrtou32 : List ℕ → Option ℕ) (fc : FanCtrl) (v : ℕ) (junk : List ℕ)
    → ReadsNumbers kstrtou32
    → fc.manual_mode ≡ true
    → 1 ≤ v
    → v ≤ 100
    → 19 ≤ length junk
    → let bytes = set_frequency_bytes (pos v) junk in
      frequency_store fc (kstrtou32 bytes) (length bytes)
      ≡ some (record fc { frequency = v }, mod_timer (1000 / (2 * v)) ∷ [], pos 20)
bytes_reach_driver kstrtou32 fc v junk reads m l h j =
    let short : length (print_int (pos v)) ≤ 11 =
      length-print_int (pos v) (omega arith) (omega arith) in
    let text : set_frequency_bytes (pos v) junk
        ≡ print_nat v ++ (0 ∷ take (20 - length (print_int (pos v)) - 1) junk) =
      set_frequency_bytes-split (pos v) junk short
      ∙ ap (λ t. t ++ (0 ∷ take (20 - length (print_int (pos v)) - 1) junk)) (print_int_pos v) in
    let value : kstrtou32 (set_frequency_bytes (pos v) junk) ≡ some v =
      ap kstrtou32 text ∙ reads v (take (20 - length (print_int (pos v)) - 1) junk) (omega arith) in
    let size = (atoi-set_frequency_bytes (pos v) junk (omega arith) (omega arith) j).1 in
    let (_, _, _, _, stored) = frequency_store_cases fc v 20 (omega arith) in
    rw (value, size)
      (stored m (λ e. omega (arith, l, e)) (λ e. omega (arith, h, e))
        ∙ ap (λ d. some (record fc { frequency = v }, mod_timer (1000 / d) ∷ [], pos 20))
            (omega (arith, h)))

daemon_writes :
    (f : Fan) (r : Reads) (v : ℕ)
    → f.manual_mode ≡ true
    → 1 ≤ v
    → v ≤ 100
    → (handle_request f r (request cmd_set_frequency (pos v))).1
      ≡ write f.freq_fd (set_frequency_bytes (pos v) r.junk) ∷ []
unfolding fan_set_frequency
daemon_writes f r v m l h =
    let (_, _, _, good) = set_frequency_cases f r (pos v) in
    ap (λ d. d.1) (good m (omega (arith, l)) (omega (arith, h)))

client_reads :
    (f : Fan) (r : Reads) (fc : FanCtrl) (name : List ℕ)
    → fc.frequency < 2 ^ 31
    → main (daemon f (record r { freq = shown_bytes (frequency_show fc) })) (name ∷ get_freq ∷ [])
      ≡ printed (print_nat fc.frequency ++ (10 ∷ []))
unfolding main eq_text report send_command handle_request
client_reads f r fc name h =
    let read = read-show_small fc h in rw (read, ← print_int_pos fc.frequency) (ground arith)

-- Where the daemon and the driver are in manual mode, a client that asks for a frequency from 1 to
-- 100 is told that it succeeded, and the daemon makes one write, to the driver's file; the driver
-- takes all of these bytes as that frequency, stores it and arms its timer with the half period; a
-- client that then asks for the frequency prints it. `kstrtou32` is the kernel's.
pub set_reaches_driver :
    (kstrtou32 : List ℕ → Option ℕ) (f : Fan) (r : Reads) (fc : FanCtrl) (name : List ℕ) (v : ℕ)
    → ReadsNumbers kstrtou32
    → f.manual_mode ≡ true
    → fc.manual_mode ≡ true
    → 1 ≤ v
    → v ≤ 100
    → 19 ≤ length r.junk
    → let bytes = set_frequency_bytes (pos v) r.junk in
      let fc' = record fc { frequency = v } in
      let r' = record r { freq = shown_bytes (frequency_show fc') } in
      (main (daemon f r) (name ∷ set_freq ∷ print_int (pos v) ∷ []) ≡ printed (b'0' ∷ 10 ∷ []))
      × ((handle_request f r (request cmd_set_frequency (pos v))).1 ≡ write f.freq_fd bytes ∷ [])
      × (frequency_store fc (kstrtou32 bytes) (length bytes)
          ≡ some (fc', mod_timer (1000 / (2 * v)) ∷ [], pos 20))
      × (main (daemon f r') (name ∷ get_freq ∷ []) ≡ printed (print_nat v ++ (10 ∷ [])))
set_reaches_driver kstrtou32 f r fc name v reads m n l h j = (
  set_freq_outcome f r name (pos v) (omega arith, omega (arith, h)) ∙ ground (arith, m, l, h),
  daemon_writes f r v m l h,
  bytes_reach_driver kstrtou32 fc v r.junk reads n l h j,
  client_reads f r (record fc { frequency = v }) name (omega (arith, h)),
)
