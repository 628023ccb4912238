-- ===== src/FanDaemon/SocketLaws.antt =====
-- What a client gets for each request, and what it can change.
use csel_workspace.Prelude.{
  ℕ, suc, ◌-◌, length, ◌≤◌, ◌<◌, ◌^◌, ◌≡◌, refl, true, false, Option, none, some, List, [], ◌∷◌,
  ◌++◌, arith, if◌then◌else◌, ltb,
}
use csel_workspace.Prelude.Int.{ℤ, pos, negsuc, minus, ◌≤ℤ◌}
use csel_workspace.Prelude.Machine.{to_int}
use csel_workspace.Prelude.Errno.{eperm, erange}
use csel_workspace.FanDriver.{FanCtrl, reading}
use csel_workspace.FanDriver.Sysfs.{frequency_show, cpu_temp_show}
use csel_workspace.FanDaemon.Calls.{
  Request, Call, write, send, close, cmd_get_mode, cmd_set_mode, cmd_get_frequency,
  cmd_set_frequency, cmd_get_temp,
}
use csel_workspace.FanDaemon.Fan.{
  Fan, fan_toggle_mode, fan_set_frequency, fan_read_frequency, fan_get_cpu_temp,
}
use csel_workspace.FanDaemon.FanLaws.{shown_bytes, read-show}
use csel_workspace.FanDaemon.Screen.{thousandth}
use csel_workspace.FanDaemon.Socket.{
  Reads, to_bool, answer, request, handle_request, handle_received, socket_handle_client,
}

-- A request to set the frequency: without manual mode it is refused with EPERM, outside 1 to 100
-- with ERANGE, both with no write; otherwise the frequency is written and the status is 0. The mode
-- is kept in each case.
pub set_frequency_cases :
    (f : Fan) (r : Reads) (v : ℤ)
    → let req = (request cmd_set_frequency (v)) in
      let bad =
        λ (e : ℕ). handle_request f r req ≡ (f, [], record { status = minus e; value = pos 0 }) in
      (f.manual_mode ≡ false → bad eperm)
      × (f.manual_mode ≡ true → v ≤ℤ pos 0 → bad erange)
      × (f.manual_mode ≡ true → pos 101 ≤ℤ v → bad erange)
      × (f.manual_mode ≡ true
          → pos 1 ≤ℤ v
          → v ≤ℤ pos 100
          → handle_request f r req
            ≡ (f, fan_set_frequency f v r.junk, record { status = pos 0; value = pos 0 }))
unfolding handle_request
set_frequency_cases f r v =
    (λ m. ground arith, λ m h. ground arith, λ m h. ground arith, λ m h k. ground arith)

-- After a request to set the mode, a request for the mode is answered with the mode that was asked
-- for, and the driver's file was written exactly if the mode changed.
pub set_mode-get_mode :
    (f : Fan) (r : Reads) (v : ℤ)
    → let (f', calls, resp) = handle_request f r (request cmd_set_mode (v)) in
      (handle_request f' r (request cmd_get_mode (pos 0))
        ≡ answer f' (pos 0) (if to_bool v then pos 1 else pos 0))
      × (resp.status ≡ pos 0)
      × (calls ≡ (
          if f.manual_mode
          then (if to_bool v then [] else write f.manual_fd (b'0' ∷ []) ∷ [])
          else (if to_bool v then write f.manual_fd (b'1' ∷ []) ∷ [] else [])))
unfolding handle_request fan_toggle_mode
set_mode-get_mode f r v = ground arith

-- With the driver in state `fc` at `t` millidegrees, a client that asks for the frequency gets the
-- driver's as an `int`, with status 0 or, from 2^31 on, with the number as its status; one that asks
-- for the temperature gets its whole degrees with status 0.
pub get-show :
    (f : Fan) (r : Reads) (fc : FanCtrl) (t : ℤ)
    → fc.frequency < 2 ^ 32
    → negsuc (2 ^ 31 - 1) ≤ℤ t
    → t ≤ℤ pos (2 ^ 31 - 1)
    → let r' = record r {
      freq = shown_bytes (frequency_show fc);
      temp = shown_bytes (cpu_temp_show (reading t));
    } in
      let v =
        if ltb fc.frequency (2 ^ 31) then pos fc.frequency else minus (2 ^ 32 - fc.frequency) in
      (handle_request f r' (request cmd_get_frequency (pos 0))
        ≡ answer f (if ltb fc.frequency (2 ^ 31) then pos 0 else v) v)
      × (handle_request f r' (request cmd_get_temp (pos 0)) ≡ answer f (pos 0) (thousandth t))
unfolding handle_request to_int
get-show f r fc t h lo hi =
    let read = read-show fc t h lo hi in (ground (arith, read.0, h), ground (arith, read.1))

-- A failed read is an error to a client that asks for the frequency, and is reported as 0 degrees
-- with status 0 to one that asks for the temperature.
pub get_failed :
    (f : Fan) (r : Reads)
    → r.freq ≡ none
    → r.temp ≡ none
    → (handle_request f r (request cmd_get_frequency (pos 0)) ≡ answer f (minus 1) (minus 1))
      × (handle_request f r (request cmd_get_temp (pos 0)) ≡ answer f (pos 0) (pos 0))
unfolding handle_request fan_read_frequency fan_get_cpu_temp
get_failed f r a b = (ground arith, ground arith)

-- Some list of calls ends with the answer to a client and the close of its connection, and holds
-- no other answer.
pub sends : List Call → ℕ
sends [] = 0
sends (send fd resp ∷ cs) = suc (sends cs)
sends (_ ∷ cs) = sends cs

-- Whatever a client sends, of whatever size: it gets exactly one answer, which is the last call
-- before its connection is closed, and of the driver's files at most one is written, once.
pub one_answer :
    (f : Fan) (r : Reads) (fd : ℤ) (received : Option Request)
    → let (f', calls, resp) = handle_received f r received in
      let done = socket_handle_client f r fd received in
      (done.1 ≡ calls ++ (send fd resp ∷ close fd ∷ [])) × (sends done.1 ≡ 1) × (length done.1 ≤ 3)
unfolding socket_handle_client handle_received handle_request sends fan_toggle_mode
    fan_set_frequency
one_answer f r fd none = (refl, refl, omega arith)
one_answer f r fd (some req) = ground arith
