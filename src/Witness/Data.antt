-- ===== src/Witness/Data.antt =====
-- The values that the tests share: an event callback, frames and their bytes.
use Prim.Native.String.{String}
use rose_esp.Prelude.{ℕ, suc, true, false, Option, some, [], ◌∷◌}
use rose_esp.Prelude.Int.{pos}
use rose_esp.Prelude.Result.{Result, ok}
use rose_esp.Struct.{Bytes}
use rose_esp.Protocol.Frame.{MessageFrame}
use rose_esp.Protocol.Events.{Event, cmd_ack}
use rose_esp.Server.Stream.{Callback}
use rose_esp.Server.Connection.{Server, new}
use rose_esp.Dispatcher.{CommandDispatcher}

abbrev pub text_of : Bytes → String
text_of bytes = "text"

abbrev pub four_zeros : ℕ → Result Bytes
four_zeros x = ok (0 ∷ 0 ∷ 0 ∷ 0 ∷ [])

-- A callback that counts.
abbrev pub counting : Option (Callback ℕ)
counting = some (λ n frame. (suc n, false))

-- An acknowledgement of command 7.
abbrev pub ack_frame : MessageFrame
ack_frame = record {
  version = pos 1;
  msg_type = pos 3;
  length = pos 9;
  cmd_id = pos 7;
  crc = pos 0;
  payload = 0x20 ∷ 7 ∷ 0 ∷ 0 ∷ 0 ∷ 9 ∷ 0 ∷ 0 ∷ 0 ∷ [];
}

abbrev pub ack_bytes : Bytes
ack_bytes = 1 ∷ 3 ∷ 9 ∷ 0 ∷ 7 ∷ 0 ∷ 0 ∷ 0 ∷ 0x20 ∷ 7 ∷ 0 ∷ 0 ∷ 0 ∷ 9 ∷ 0 ∷ 0 ∷ 0 ∷ []

abbrev pub ack_event : Event
ack_event =
    cmd_ack (record { cmd_id = pos 7; status = pos 0; error_code = pos 0; correlation_id = pos 9 })

-- A dispatcher over a server whose client has socket 4.
abbrev pub connected_server : Server
connected_server = record new { running = true; connected = true; client_socket = some 4 }

abbrev pub connected : CommandDispatcher
connected = record { next_cmd_id = 65534; server = connected_server; writes = [] }
