-- ===== src/Server/Connection.antt =====
-- The state of `IoTAgentServer` (bridge/src/server.py) and the sections that change it. A socket
-- and an address are numbers; what the operating system answers is an argument. Each function is
-- one section under `self._lock`, or runs before the threads do.
pub mod Laws
pub mod Steady
pub mod Lifetime
use rose_esp.Prelude.{
  ℕ, zero, suc, Bool, true, false, not, ◌||◌, Option, none, some, List, [], ◌∷◌, ◌++◌, ◌==◌,
  if◌then◌else◌,
}
use rose_esp.Prelude.Result.{Result, ok, err, other_error}
use rose_esp.Struct.{Bytes}
use rose_esp.Protocol.Frame.{MessageFrame, to_bytes}

pub record Server : Type 0 where
  pub running : Bool
  pub connected : Bool
  pub client_socket : Option ℕ
  pub client_address : Option ℕ
  pub closed : List ℕ  -- the client sockets that `close` was called on, the last first
  pub sent : List (ℕ × Bytes)  -- what `sendall` wrote and to which socket, the last first

abbrev pub new : Server
new = record {
  running = false;
  connected = false;
  client_socket = none;
  client_address = none;
  closed = [];
  sent = [];
}

-- The bind loop of `start`, `attempts` rounds long: `true` where `bind` succeeds, and the last
-- failure is raised.
unfoldable pub bind_loop : ℕ → List Bool → Result (Unit {0})
bind_loop zero binds = err other_error
bind_loop (suc attempts) [] = ok tt
bind_loop (suc attempts) (bound ∷ binds) =
    let again = bind_loop attempts binds in if bound then ok tt else again

-- `start`, for the answers of its calls of `bind` (the calls behind the list succeed).
unfoldable pub start : List Bool → Server → Result (Unit {0}) × Server
start binds s = if s.running then (ok tt, s) else (bind_loop 100 binds, record s { running = true })

-- The body of `if self.client_socket:` in `stop`.
drop_client : Option ℕ → Server → Server
drop_client none s = s
drop_client (some socket) s = record s {
  client_socket = none;
  connected = false;
  closed = socket ∷ s.closed;
}

unfoldable pub stop : Server → Server
unfolding drop_client
stop s = drop_client s.client_socket (record s { running = false })

-- The section of `_server_loop` after `accept`.
accept_over : Option ℕ → ℕ → ℕ → Server → Server
accept_over old socket address s = record s {
  closed = elim old [ none ↦ s.closed | some previous ↦ previous ∷ s.closed ];
  client_socket = some socket;
  client_address = some address;
  connected = true;
}

unfoldable pub accept : ℕ → ℕ → Server → Server
unfolding accept_over
accept socket address s = accept_over s.client_socket socket address s

abbrev pub holds : Option ℕ → ℕ → Bool
holds none socket = false
holds (some current) socket = current == socket

-- `_handle_disconnect` of a socket: closed, and forgotten if it is the current one.
unfoldable pub disconnect_socket : ℕ → Server → Server
disconnect_socket socket s =
    let s' = record s { closed = socket ∷ s.closed } in
    if holds s.client_socket socket
    then record s' { client_socket = none; connected = false }
    else s'

disconnect_option : Option ℕ → Server → Server
disconnect_option none s = s
disconnect_option (some socket) s = disconnect_socket socket s

-- `_handle_disconnect`: without an argument it is about the current socket.
unfoldable pub handle_disconnect : Option ℕ → Server → Server
unfolding disconnect_option disconnect_socket
handle_disconnect none s = disconnect_option s.client_socket s
handle_disconnect (some socket) s = disconnect_socket socket s

-- The `try` of `send_command`: `writes` says whether `sendall` returns.
unfoldable pub transmit : Bool → ℕ → Result Bytes → Server → Bool × Server
transmit writes socket (err e) s = (false, handle_disconnect none s)
transmit writes socket (ok bytes) s =
    if writes
    then (true, record s { sent = (socket, bytes) ∷ s.sent })
    else (false, handle_disconnect none s)

unfoldable pub send_command : Bool → MessageFrame → Server → Bool × Server
unfolding transmit
send_command writes frame s = elim s.client_socket [
  | none ↦ (false, s)
  | some socket ↦ if s.connected then transmit writes socket (to_bytes frame) s else (false, s)
]
