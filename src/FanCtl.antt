-- ===== src/FanCtl.antt =====
-- src/07_miniproj/application/main.c: the command line client of the fan daemon.
pub mod EndToEnd
pub mod Laws
mod Tests
use csel_workspace.Prelude.{
  ℕ, Bool, true, false, ◌&&◌, ◌||◌, Option, none, some, List, [], ◌∷◌, ◌++◌, ◌==◌, if◌then◌else◌,
}
use csel_workspace.Prelude.Int.{ℤ, pos, minus, ltb_ℤ}
use csel_workspace.Prelude.Machine.{to_int}
use csel_workspace.Prelude.Decimal.{print_int, atoi}
use csel_workspace.Prelude.Text.{eq_text, codes}
use csel_workspace.FanDaemon.Calls.{
  Request, Response, cmd_get_mode, cmd_set_mode, cmd_get_frequency, cmd_set_frequency, cmd_get_temp,
}

-- How the program ends: with a message on stderr and status 1, with a fault, or with a line on
-- stdout and status 0.
pub data Outcome : Type 0 where
  usage unknown_command connect_failed fault : Outcome
  failed_with : ℤ → Outcome
  printed : List ℕ → Outcome

-- What the rest of the world does: whether `connect` succeeds, and what `recv` brings for a request;
-- without a response the zeros that the code starts with stay.
pub record Server : Type 0 where
  pub connects : Bool
  pub receives : Request → Option Response

abbrev pub get_mode : List ℕ
get_mode = codes "get-mode"

abbrev pub set_mode : List ℕ
set_mode = codes "set-mode"

abbrev pub get_freq : List ℕ
get_freq = codes "get-freq"

abbrev pub set_freq : List ℕ
set_freq = codes "set-freq"

abbrev pub get_temp : List ℕ
get_temp = codes "get-temp"

-- `send_command`; `none` is the exit of a failed `connect_to_daemon`.
unfoldable pub send_command : Server → ℕ → ℤ → Option Response
send_command server cmd value =
    let zeros : Response = record { status = pos 0; value = pos 0 } in
    let answer = server.receives (record { cmd = cmd; value = value }) in
    if server.connects then some (elim answer [ none ↦ zeros | some r ↦ r ]) else none

-- The end of `main`.
unfoldable pub report : Option Response → Outcome
report none = connect_failed
report (some resp) =
    if ltb_ℤ resp.status (pos 0)
    then failed_with resp.status
    else printed (print_int resp.value ++ (10 ∷ []))

-- A command that takes a value: `atoi` of a missing argument reads through the NULL that ends `argv`.
unfoldable pub with_value : Server → ℕ → List (List ℕ) → Outcome
with_value server cmd [] = fault
with_value server cmd (arg ∷ args) = report (send_command server cmd (to_int (atoi arg)))

-- `main`, given `argv`.
unfoldable pub main : Server → List (List ℕ) → Outcome
main server [] = usage
main server (name ∷ []) = usage
main server (name ∷ (command ∷ args)) =
    if eq_text command get_mode
    then report (send_command server cmd_get_mode (pos 0))
    else if eq_text command set_mode
    then with_value server cmd_set_mode args
    else if eq_text command get_freq
    then report (send_command server cmd_get_frequency (pos 0))
    else if eq_text command set_freq
    then with_value server cmd_set_frequency args
    else if eq_text command get_temp
    then report (send_command server cmd_get_temp (pos 0))
    else unknown_command
