-- ===== src/FanDaemon/Calls.antt =====
-- The system calls of the daemon that change something, and the messages of
-- src/07_miniproj/common/fan_socket.h.
use csel_workspace.Prelude.{ℕ, Bool, List}
use csel_workspace.Prelude.Int.{ℤ}

-- `fan_cmd_t`: a request carries any 32-bit number; these are the ones with a meaning.
abbrev pub cmd_get_mode : ℕ
cmd_get_mode = 0

abbrev pub cmd_set_mode : ℕ
cmd_set_mode = 1

abbrev pub cmd_get_frequency : ℕ
cmd_get_frequency = 2

abbrev pub cmd_set_frequency : ℕ
cmd_set_frequency = 3

abbrev pub cmd_get_temp : ℕ
cmd_get_temp = 4

-- `fan_request_t`
pub record Request : Type 0 where
  pub cmd : ℕ
  pub value : ℤ

-- `fan_response_t`
pub record Response : Type 0 where
  pub status : ℤ
  pub value : ℤ

-- What a registration in the epoll set points to: `data.ptr` in the source.
pub data Pointer : Type 0 where
  button_event : ℕ → Pointer
  timer_event : Pointer
  socket_event : Pointer
  client_event : ℕ → Pointer

-- One two-byte write to the screen: its mode byte and the byte that follows.
abbrev pub Message : Type 0
Message = ℕ × ℕ

pub data Call : Type 0 where
  write : ℤ → List ℕ → Call
  send : ℤ → Response → Call
  close : ℤ → Call
  epoll_add : ℤ → (oneshot : Bool) → Pointer → Call
  epoll_del : ℤ → Call
  i2c : List Message → Call
