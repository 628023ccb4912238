-- ===== src/FanCtl/Laws.antt =====
-- The client against the daemon and the driver, and its one fault.
use mathlib.Core.List.{append-nil}
use csel_workspace.Prelude.{
  ◌-◌, ℕ, ◌^◌, ◌<◌, ◌≡◌, refl, sym, ap, ap₂, ◌∙◌, Bool, true, false, not, ◌&&◌, ◌||◌, Option, none,
  some, List, [], ◌∷◌, ◌++◌, if◌then◌else◌, arith, Bool-cases, inl, inr, ltb,
}
use csel_workspace.Prelude.Int.{ℤ, pos, negsuc, minus, ltb_ℤ, ◌≤ℤ◌}
use csel_workspace.Prelude.Machine.{to_int, IsInt, to_int_same}
use csel_workspace.Prelude.Errno.{eperm, erange}
use csel_workspace.Prelude.Decimal.{print_int, print_nat, print_from, atoi}
use csel_workspace.Prelude.Decimal.RoundTrip.{atoi-print_int, print_int_pos}
use csel_workspace.FanDaemon.Calls.{Response, cmd_set_mode, cmd_set_frequency, cmd_get_temp}
use csel_workspace.FanDaemon.Fan.{Fan}
use csel_workspace.FanDaemon.FanLaws.{shown_bytes}
use csel_workspace.FanDaemon.Screen.{thousandth}
use csel_workspace.FanDaemon.Socket.{Reads, handle_request}
use csel_workspace.FanDaemon.SocketLaws.{get-show}
use csel_workspace.FanDriver.{FanCtrl, reading}
use csel_workspace.FanDriver.Sysfs.{emit, frequency_show, cpu_temp_show}
use csel_workspace.Prelude.Text.{eq_text}
use csel_workspace.FanCtl.{
  Outcome, unknown_command, fault, failed_with, printed, Server, get_mode, set_mode, get_freq,
  set_freq, get_temp, send_command, report, with_value, main,
}

-- A daemon that answers each request as `socket_handle_client` does.
abbrev pub daemon : Fan → Reads → Server
daemon f r = record { connects = true; receives = λ req. some (handle_request f r req).2 }

eq_text-eq : (xs ys : List ℕ) → eq_text xs ys ≡ true → xs ≡ ys
unfolding eq_text
eq_text-eq [] [] e = refl
eq_text-eq [] (d ∷ ds) e = cc
eq_text-eq (c ∷ cs) [] e = cc
eq_text-eq (c ∷ cs) (d ∷ ds) e = ap₂ ◌∷◌ (ground (arith, e)) (eq_text-eq cs ds (ground (arith, e)))

abbrev pub is_fault : Outcome → Bool
is_fault fault = true
is_fault _ = false

abbrev pub is_empty : List (List ℕ) → Bool
is_empty [] = true
is_empty _ = false

atoi_whole : (v : ℤ) → atoi (print_int v) ≡ v
atoi_whole v = rw (← append-nil (print_int v)) (atoi-print_int v [] refl)

set_freq_sends :
    (server : Server) (name : List ℕ) (v : ℤ)
    → IsInt v
    → main server (name ∷ set_freq ∷ print_int v ∷ [])
      ≡ report (send_command server cmd_set_frequency v)
unfolding main eq_text with_value
set_freq_sends server name v i =
    ap (λ w. report (send_command server cmd_set_frequency w))
      (ap to_int (atoi_whole v) ∙ to_int_same v i)

-- With the daemon at the other end, `set-freq` with an `int` prints 0 if the daemon is in manual mode
-- and the number is from 1 to 100; outside that range it reports ERANGE, and without manual mode
-- EPERM.
pub set_freq_outcome :
    (f : Fan) (r : Reads) (name : List ℕ) (v : ℤ)
    → IsInt v
    → main (daemon f r) (name ∷ set_freq ∷ print_int v ∷ []) ≡ (
        if not f.manual_mode
        then failed_with (minus eperm)
        else if ltb_ℤ v (pos 1) || ltb_ℤ (pos 100) v
        then failed_with (minus erange)
        else printed (b'0' ∷ 10 ∷ []))
unfolding send_command report handle_request print_int print_nat print_from
set_freq_outcome f r name v i = set_freq_sends (daemon f r) name v i ∙ ground arith

-- With the daemon at the other end and the driver in state `fc` at `t` millidegrees, `get-freq`
-- prints just what a reader of the driver's file `frequency` gets, where this is below 2^31; from
-- there on the daemon's `int` is negative, and the client reports it as an error. `get-temp` prints
-- the whole degrees.
pub get_prints_driver :
    (f : Fan) (r : Reads) (fc : FanCtrl) (t : ℤ) (name : List ℕ)
    → fc.frequency < 2 ^ 32
    → negsuc (2 ^ 31 - 1) ≤ℤ t
    → t ≤ℤ pos (2 ^ 31 - 1)
    → let r' = record r {
      freq = shown_bytes (frequency_show fc);
      temp = shown_bytes (cpu_temp_show (reading t));
    } in
      ((text : List ℕ) × (frequency_show fc ≡ emit text)
        × (main (daemon f r') (name ∷ get_freq ∷ []) ≡ (
            if ltb fc.frequency (2 ^ 31)
            then printed text
            else failed_with (minus (2 ^ 32 - fc.frequency)))))
      × (main (daemon f r') (name ∷ get_temp ∷ [])
          ≡ printed (print_int (thousandth t) ++ (10 ∷ [])))
unfolding main eq_text report send_command frequency_show
get_prints_driver f r fc t name h lo hi =
    let answers = get-show f r fc t h lo hi in
    (
      (
        print_nat fc.frequency ++ (10 ∷ []),
        refl,
        ap (λ h. report (some h.2)) answers.0
            ∙ rw (← print_int_pos fc.frequency) (ground (arith, h)),
      ),
      ap (λ h. report (some h.2)) answers.1,
    )

report_succeeds : (o : Option Response) → is_fault (report o) ≡ false
unfolding report
report_succeeds none = refl
report_succeeds (some resp) = ground arith

with_value_fault :
    (server : Server) (cmd : ℕ) (args : List (List ℕ))
    → is_fault (with_value server cmd args) ≡ is_empty args
unfolding with_value
with_value_fault server cmd [] = refl
with_value_fault server cmd (arg ∷ args) =
    report_succeeds (send_command server cmd (to_int (atoi arg)))

-- A command that equals one text differs from every other text.
excludes :
    (command known other : List ℕ)
    → eq_text known other ≡ false
    → eq_text command known ≡ true
    → eq_text command other ≡ false
excludes command known other n e = ap (λ x. eq_text x other) (eq_text-eq command known e) ∙ n

and_false : (b : Bool) → (b && false) ≡ false
and_false true = refl
and_false false = refl

and_true : (b : Bool) → (b && true) ≡ b
and_true true = refl
and_true false = refl

-- The program faults, whatever the server does, exactly when its command is `set-mode` or `set-freq`
-- and no argument follows the command.
pub main_fault :
    (server : Server) (name command : List ℕ) (args : List (List ℕ))
    → is_fault (main server (name ∷ command ∷ args))
      ≡ (is_empty args && (eq_text command set_mode || eq_text command set_freq))
unfolding main eq_text
main_fault server name command args = elim (Bool-cases (eq_text command get_mode)) [
  | inl a ↦
      simp (a, excludes command get_mode set_mode refl a, excludes command get_mode set_freq refl a)
        (report_succeeds _ ∙ sym (and_false (is_empty args)))
  | inr a ↦ elim (Bool-cases (eq_text command set_mode)) [
    | inl b ↦
        simp (a, b) (with_value_fault server cmd_set_mode args ∙ sym (and_true (is_empty args)))
    | inr b ↦ elim (Bool-cases (eq_text command get_freq)) [
      | inl c ↦
          simp (a, b, c, excludes command get_freq set_freq refl c)
            (report_succeeds _ ∙ sym (and_false (is_empty args)))
      | inr c ↦ elim (Bool-cases (eq_text command set_freq)) [
        | inl d ↦
            simp (a, b, c, d)
              (with_value_fault server cmd_set_frequency args ∙ sym (and_true (is_empty args)))
        | inr d ↦
            simp (a, b, c, d)
              (last_fault (eq_text command get_temp) server ∙ sym (and_false (is_empty args)))
      ]
    ]
  ]
]
  where
    last_fault :
        (temp : Bool) (server : Server)
        → is_fault
            (if temp then report (send_command server cmd_get_temp (pos 0)) else unknown_command)
          ≡ false
    last_fault true server = report_succeeds _
    last_fault false server = refl
