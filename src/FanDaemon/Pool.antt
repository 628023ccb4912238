-- ===== src/FanDaemon/Pool.antt =====
-- The pool of clients: bounds of its array, and which descriptors it holds.
pub mod Occurrences
use csel_workspace.Prelude.{
  ℕ, zero, suc, ◌+◌, ◌-◌, ◌*◌, ◌≤◌, ◌<◌, ◌≡◌, ◌≢◌, refl, Bool, true, false, Option, none, some,
  List, [], ◌∷◌, ◌++◌, ◌==◌, leb, get_or, set, replicate, if◌then◌else◌, length, length-set, arith,
  Bool-cases, inl, inr, ap,
}
use csel_workspace.Prelude.Int.{ℤ, pos, ltb_ℤ, ==ℤ}
use csel_workspace.FanDaemon.Calls.{Call, close, epoll_add, Pointer, client_event}
use csel_workspace.FanDaemon.Fan.{Fan}
use csel_workspace.FanDaemon.Gpios.{Gpios}
use csel_workspace.FanDaemon.Socket.{socket_accept_client, socket_handle_client}
use csel_workspace.FanDaemon.Events.{
  EventType, button1_press, button2_press, button3_press, refresh_screen,
  socket_accept_client_event, socket_client_request, Event, zeroed, Daemon, Inputs,
  max_socket_clients, remove_client, process_event, deref, dispatch, run, start,
}

-- The pool fits its array.
pub record PoolInv (d : Daemon) : Type 0 where
  pub slots : length d.client_events ≡ max_socket_clients
  pub within : d.client_event_count ≤ max_socket_clients

remove_client_shape :
    (rounds i : ℕ) (es : List Event) (count : ℕ) (fd : ℤ)
    → let (es', n) = remove_client rounds i es count fd in (length es' ≡ length es) × (n ≤ count)
unfolding remove_client
remove_client_shape zero i es count fd = (refl, omega arith)
remove_client_shape (suc k) i es count fd = ground (
  arith,
  remove_client_shape k (i + 1) es count fd,
  length-set es i (get_or es (count - 1) zeroed),
)

process_event-PoolInv :
    (d : Daemon) (i : Inputs) (t : EventType) (fd : ℤ)
    → PoolInv d
    → PoolInv (process_event d i t fd).0
unfolding process_event
process_event-PoolInv d i button1_press fd v = ground arith
process_event-PoolInv d i button2_press fd v = ground arith
process_event-PoolInv d i button3_press fd v = ground arith
process_event-PoolInv d i refresh_screen fd v = v
process_event-PoolInv d i socket_accept_client_event fd v = ground (
  arith,
  length-set d.client_events d.client_event_count
      (record { type = socket_client_request; fd = socket_accept_client i.accepted }),
)
process_event-PoolInv d i socket_client_request fd v =
    ground
      (arith, remove_client_shape d.client_event_count 0 d.client_events d.client_event_count fd)

run_from-PoolInv :
    (d : Daemon) (events : List (Inputs × Pointer)) → PoolInv d → PoolInv (run d events).0
unfolding run dispatch
run_from-PoolInv d [] v = v
run_from-PoolInv d ((i, p) ∷ events) v =
    run_from-PoolInv (dispatch d i p).0 events
      (process_event-PoolInv d i (deref d p).type (deref d p).fd v)

-- From the start of the daemon on, whatever events come in whatever order, the pool has its eight
-- slots and counts at most eight clients, so that no event is stored outside the array.
pub run-PoolInv :
    (fan : Fan) (gpios : Gpios) (timer_fd server_fd : ℤ) (events : List (Inputs × Pointer))
    → PoolInv (run (start fan gpios timer_fd server_fd) events).0
unfolding start
run-PoolInv fan gpios timer_fd server_fd events =
    run_from-PoolInv (start fan gpios timer_fd server_fd) events (omega arith)
