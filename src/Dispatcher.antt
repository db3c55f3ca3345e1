-- ===== src/Dispatcher.antt =====
-- `CommandDispatcher` of bridge/src/commands.py over the server that it sends through. `writes`
-- says for each coming call of `sendall` whether it returns; behind the list it does.
-- `pending_commands` is never read nor written, and is left out.
pub mod Ids
pub mod Wire
pub mod Commands
use rose_esp.Prelude.{
  ℕ, suc, ◌+◌, ◌%◌, Bool, true, Option, none, some, List, [], ◌∷◌, ◌++◌, length, ltb, ◌==◌,
  if◌then◌else◌,
}
use rose_esp.Prelude.Int.{ℤ, pos}
use rose_esp.Prelude.Result.{Result, ok, err, value_error, ◌>>=◌}
use rose_esp.Struct.{Bytes}
use rose_esp.Protocol.Opcodes.{msg_type_cmd}
use rose_esp.Protocol.Frame.{MessageFrame, calculate_crc}
use rose_esp.Server.Connection
use rose_esp.Server.Connection.{Server}

pub record CommandDispatcher : Type 0 where
  pub next_cmd_id : ℕ
  pub server : Server
  pub writes : List Bool

-- `_get_next_cmd_id`: the successor of an id.
unfoldable pub following : ℕ → ℕ
following cmd_id = let n = (cmd_id + 1) % 65536 in if n == 0 then 1 else n

unfoldable pub get_next_cmd_id : CommandDispatcher → ℕ × CommandDispatcher
get_next_cmd_id d = (d.next_cmd_id, record d { next_cmd_id = following d.next_cmd_id })

-- `bytes([opcode])`
abbrev pub byte_string : ℕ → Result Bytes
byte_string opcode = if ltb opcode 256 then ok (opcode ∷ []) else err value_error

-- The frame of a command, with its checksum.
unfoldable pub command_frame : ℕ → Bytes → ℕ → Result MessageFrame
command_frame opcode payload cmd_id = do
  head ← byte_string opcode
  let frame : MessageFrame = record {
    version = pos 1;
    msg_type = pos msg_type_cmd;
    length = pos (length payload + 1);
    cmd_id = pos cmd_id;
    crc = pos 0;
    payload = head ++ payload;
  }
  crc ← calculate_crc frame
  ok (record frame { crc = crc })

abbrev pub next_write : List Bool → Bool
next_write [] = true
next_write (w ∷ ws) = w

abbrev pub later_writes : List Bool → List Bool
later_writes [] = []
later_writes (w ∷ ws) = ws

-- `self.server.send_command(frame)`
unfoldable pub send_frame : MessageFrame → CommandDispatcher → Bool × CommandDispatcher
send_frame frame d =
    let (sent, server) = Connection.send_command (next_write d.writes) frame d.server in
    (sent, record d { server = server; writes = later_writes d.writes })

send_built : ℕ → Result MessageFrame → CommandDispatcher → Result (Option ℤ) × CommandDispatcher
send_built cmd_id (err e) d = (err e, d)
send_built cmd_id (ok frame) d =
    let (sent, d') = send_frame frame d in (ok (if sent then some (pos cmd_id) else none), d')

-- `_send_command`: the command id, `None` if it could not be sent, or the exception.
unfoldable pub send_command : ℕ → Bytes → CommandDispatcher → Result (Option ℤ) × CommandDispatcher
unfolding send_built
send_command opcode payload d =
    let (cmd_id, d') = get_next_cmd_id d in
    send_built cmd_id (command_frame opcode payload cmd_id) d'

-- `self._send_command(OPCODE, cmd.to_bytes())`
unfoldable pub send_encoded :
    ℕ → Result Bytes → CommandDispatcher → Result (Option ℤ) × CommandDispatcher
send_encoded opcode (err e) d = (err e, d)
send_encoded opcode (ok payload) d = send_command opcode payload d
