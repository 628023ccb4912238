-- ===== src/FanDaemon/Events.antt =====
-- src/07_miniproj/daemon/main.c: the events of the epoll loop and their handlers.
use csel_workspace.Prelude.{
  ℕ, zero, suc, ◌+◌, ◌-◌, ◌*◌, ◌/◌, ◌%◌, true, false, Option, List, [], ◌∷◌, ◌++◌, leb, get_or, set,
  replicate, if◌then◌else◌,
}
use csel_workspace.Prelude.Int.{ℤ, pos, ltb_ℤ, ==ℤ}
use csel_workspace.FanDaemon.Calls.{
  Request, Call, close, epoll_add, epoll_del, i2c, Pointer, button_event, timer_event, socket_event,
  client_event,
}
use csel_workspace.FanDaemon.Fan.{
  Fan, fan_toggle_mode, fan_increase_frequency, fan_decrease_frequency,
}
use csel_workspace.FanDaemon.Gpios.{Gpios, set_led, is_button_pressed}
use csel_workspace.FanDaemon.Screen.{screen_refresh}
use csel_workspace.FanDaemon.Socket.{Reads, socket_accept_client, socket_handle_client}

abbrev pub screen_refresh_interval_ms : ℕ
screen_refresh_interval_ms = 100

abbrev pub max_socket_clients : ℕ
max_socket_clients = 8

-- `enum event_type`
pub data EventType : Type 0 where
  button1_press button2_press button3_press refresh_screen : EventType
  socket_accept_client_event socket_client_request : EventType

-- `struct event`
pub record Event : Type 0 where
  pub type : EventType
  pub fd : ℤ

-- A zeroed slot of a static array.
abbrev pub zeroed : Event
zeroed = record { type = button1_press; fd = pos 0 }

-- The static variables of main.c, with those of the components.
pub record Daemon : Type 0 where
  pub fan : Fan
  pub gpios : Gpios
  pub screen_timer_fd : ℤ
  pub socket_server_fd : ℤ
  pub client_events : List Event
  pub client_event_count : ℕ

-- What the system answers while an event is handled.
pub record Inputs : Type 0 where
  pub button : Option (List ℕ)
  pub button_junk : ℕ
  pub reads : Reads
  pub accepted : ℤ
  pub received : Option Request

-- The two durations of `create_timer`, in seconds and nanoseconds: the first expiry and the period.
unfoldable pub create_timer : ℕ → (ℕ × ℕ) × (ℕ × ℕ)
create_timer interval_ms = ((0, 1), (interval_ms / 1000, interval_ms % 1000 * 1000000))

-- A button's handler: the LED follows the button, and `act` is done while it is pressed.
button : Daemon → Inputs → Daemon × List Call → Daemon × List Call
button d i act =
    if is_button_pressed i.button i.button_junk
    then (act.0, set_led d.gpios true ++ act.1)
    else (d, set_led d.gpios false)

accept_client : Daemon → ℤ → Daemon × List Call
accept_client d client_fd =
    let n = d.client_event_count in
    let ce : Event = record { type = socket_client_request; fd = client_fd } in
    if ltb_ℤ client_fd (pos 0)
    then (d, [])
    else if leb max_socket_clients n
    then (d, close client_fd ∷ [])
    else (
      record d { client_events = set d.client_events n ce; client_event_count = n + 1 },
      epoll_add client_fd true (client_event n) ∷ [],
    )

-- The loop that takes a descriptor out of the pool, from slot `i` on with `rounds` slots to go.
unfoldable pub remove_client : ℕ → ℕ → List Event → ℕ → ℤ → List Event × ℕ
remove_client zero i events count fd = (events, count)
remove_client (suc rounds) i events count fd =
    let rest = remove_client rounds (i + 1) events count fd in
    if ==ℤ (get_or events i zeroed).fd fd
    then (set events i (get_or events (count - 1) zeroed), count - 1)
    else rest

client_request : Daemon → Inputs → ℤ → Daemon × List Call
client_request d i fd =
    let (fan', calls) = socket_handle_client d.fan i.reads fd i.received in
    let (events, count) =
      remove_client d.client_event_count 0 d.client_events d.client_event_count fd in
    (
      record d { fan = fan'; client_events = events; client_event_count = count },
      calls ++ (epoll_del fd ∷ []),
    )

toggle_mode : Daemon → Daemon × List Call
toggle_mode d = let (fan', calls) = fan_toggle_mode d.fan in (record d { fan = fan' }, calls)

-- `process_event`; its `default` is no value of `EventType`, so that it always returns 0.
unfoldable pub process_event : Daemon → Inputs → EventType → ℤ → Daemon × List Call
unfolding button accept_client client_request toggle_mode
process_event d i button1_press fd =
    button d i
      (d, if d.fan.manual_mode then fan_increase_frequency d.fan i.reads.freq i.reads.junk else [])
process_event d i button2_press fd =
    button d i
      (d, if d.fan.manual_mode then fan_decrease_frequency d.fan i.reads.freq i.reads.junk else [])
process_event d i button3_press fd = button d i (toggle_mode d)
process_event d i refresh_screen fd = (d, i2c (screen_refresh d.fan i.reads.freq i.reads.temp) ∷ [])
process_event d i socket_accept_client_event fd = accept_client d (socket_accept_client i.accepted)
process_event d i socket_client_request fd = client_request d i fd

-- The event that a pointer of the epoll set stands for at this moment.
unfoldable pub deref : Daemon → Pointer → Event
deref d (button_event zero) = record {
  type = button1_press;
  fd = get_or d.gpios.button_fds 0 (pos 0);
}
deref d (button_event (suc zero)) = record {
  type = button2_press;
  fd = get_or d.gpios.button_fds 1 (pos 0);
}
deref d (button_event (suc (suc n))) = record {
  type = button3_press;
  fd = get_or d.gpios.button_fds 2 (pos 0);
}
deref d timer_event = record { type = refresh_screen; fd = d.screen_timer_fd }
deref d socket_event = record { type = socket_accept_client_event; fd = d.socket_server_fd }
deref d (client_event n) = get_or d.client_events n zeroed

unfoldable pub dispatch : Daemon → Inputs → Pointer → Daemon × List Call
unfolding deref process_event
dispatch d i p = let ev = deref d p in process_event d i ev.type ev.fd

-- The loop over what `epoll_wait` returned, round after round.
unfoldable pub run : Daemon → List (Inputs × Pointer) → Daemon × List Call
unfolding dispatch
run d [] = (d, [])
run d ((i, p) ∷ events) =
    let (d', calls) = dispatch d i p in let (last, more) = run d' events in (last, calls ++ more)

-- The state and the registrations with which `main` enters its loop.
unfoldable pub start : Fan → Gpios → ℤ → ℤ → Daemon
start fan gpios timer_fd server_fd = record {
  fan = fan;
  gpios = gpios;
  screen_timer_fd = timer_fd;
  socket_server_fd = server_fd;
  client_events = replicate max_socket_clients zeroed;
  client_event_count = 0;
}

unfoldable pub registrations : Gpios → ℤ → ℤ → List Call
registrations gpios timer_fd server_fd =
    epoll_add (get_or gpios.button_fds 0 (pos 0)) false (button_event 0)
    ∷ epoll_add (get_or gpios.button_fds 1 (pos 0)) false (button_event 1)
    ∷ epoll_add (get_or gpios.button_fds 2 (pos 0)) false (button_event 2)
    ∷ epoll_add timer_fd false timer_event
    ∷ epoll_add server_fd false socket_event
    ∷ []
