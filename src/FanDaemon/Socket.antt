-- ===== src/FanDaemon/Socket.antt =====
-- src/07_miniproj/daemon/socket.c: the UNIX socket and the requests of its clients.
use csel_workspace.Prelude.{
  ℕ, Bool, true, false, not, ◌||◌, Option, none, some, List, [], ◌∷◌, ◌++◌, ◌==◌, if◌then◌else◌,
}
use csel_workspace.Prelude.Int.{ℤ, pos, minus, ltb_ℤ, ==ℤ}
use csel_workspace.Prelude.Errno.{eperm, einval, erange, enosys}
use csel_workspace.FanDaemon.Calls.{
  Request, Response, Call, send, close, cmd_get_mode, cmd_set_mode, cmd_get_frequency,
  cmd_set_frequency, cmd_get_temp,
}
use csel_workspace.FanDaemon.Fan.{
  Fan, fan_toggle_mode, fan_set_frequency, fan_read_frequency, fan_get_cpu_temp, fan_frequency_min,
  fan_frequency_max,
}
use csel_workspace.FanDaemon.Screen.{thousandth}

-- `socket_init`, given what `socket`, `bind` and `listen` return: the descriptor, or -1.
unfoldable pub socket_init : ℤ → ℤ → ℤ → ℤ
socket_init fd bound listening =
    if ltb_ℤ fd (pos 0)
    then minus 1
    else if ltb_ℤ bound (pos 0)
    then minus 1
    else if ltb_ℤ listening (pos 0)
    then minus 1
    else fd

-- `socket_accept_client`, given what `accept` returns.
unfoldable pub socket_accept_client : ℤ → ℤ
socket_accept_client client_fd = if ltb_ℤ client_fd (pos 0) then minus 1 else client_fd

-- What a handler may read: the two files of the driver, and the rest of an uninitialised buffer.
pub record Reads : Type 0 where
  pub freq : Option (List ℕ)
  pub temp : Option (List ℕ)
  pub junk : List ℕ

abbrev pub Handled : Type 0
Handled = Fan × List Call × Response

-- `(bool)req.value`
abbrev pub to_bool : ℤ → Bool
to_bool v = not (==ℤ v (pos 0))

abbrev pub request : ℕ → ℤ → Request
request cmd v = record { cmd = cmd; value = v }

-- A result that changes nothing and writes nothing.
abbrev pub answer : Fan → ℤ → ℤ → Handled
answer f status value = (f, [], record { status = status; value = value })

-- `bool` values that differ.
abbrev pub differ : Bool → Bool → Bool
differ true b = not b
differ false b = b

set_mode : Fan → ℤ → Handled
set_mode f v =
    let toggled = fan_toggle_mode f in
    let ok : Response = record { status = pos 0; value = pos 0 } in
    if differ f.manual_mode (to_bool v)
    then (toggled.0, toggled.1, ok)
    else answer f (pos 0) (pos 0)

get_frequency : Fan → Reads → Handled
get_frequency f r =
    let v = fan_read_frequency r.freq in answer f (if ltb_ℤ v (pos 0) then v else pos 0) v

set_frequency : Fan → Reads → ℤ → Handled
set_frequency f r v =
    if not f.manual_mode
    then answer f (minus eperm) (pos 0)
    else if ltb_ℤ v fan_frequency_min || ltb_ℤ fan_frequency_max v
    then answer f (minus erange) (pos 0)
    else (f, fan_set_frequency f v r.junk, record { status = pos 0; value = pos 0 })

-- The `switch` over the command.
unfoldable pub handle_request : Fan → Reads → Request → Handled
unfolding set_mode get_frequency set_frequency
handle_request f r req =
    if req.cmd == cmd_get_mode
    then answer f (pos 0) (if f.manual_mode then pos 1 else pos 0)
    else if req.cmd == cmd_set_mode
    then set_mode f req.value
    else if req.cmd == cmd_get_frequency
    then get_frequency f r
    else if req.cmd == cmd_set_frequency
    then set_frequency f r req.value
    else if req.cmd == cmd_get_temp
    then answer f (pos 0) (thousandth (fan_get_cpu_temp r.temp))
    else answer f (minus enosys) (pos 0)

-- `none` stands for a `recv` that did not return the size of a request.
unfoldable pub handle_received : Fan → Reads → Option Request → Handled
handle_received f r none = answer f (minus einval) (pos 0)
handle_received f r (some req) = handle_request f r req

-- `socket_handle_client`.
unfoldable pub socket_handle_client : Fan → Reads → ℤ → Option Request → Fan × List Call
unfolding handle_received
socket_handle_client f r client_fd received =
    let (f', calls, resp) = handle_received f r received in
    (f', calls ++ (send client_fd resp ∷ close client_fd ∷ []))
