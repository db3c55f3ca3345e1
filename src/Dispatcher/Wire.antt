-- ===== src/Dispatcher/Wire.antt =====
-- A command on the wire: what the device reads back from the bytes that were sent.
use rose_esp.Prelude.{
  ℕ, ◌+◌, ◌≤◌, ◌<◌, ◌≡◌, refl, ◌∙◌, ap, true, some, ◌∷◌, ◌++◌, arith, length, All, ltb,
}
use rose_esp.Prelude.Int.{ℤ, pos}
use rose_esp.Prelude.Result.{ok, err, struct_error, ◌>>=◌}
use rose_esp.Struct.{Bytes, IsByte, pack}
use rose_esp.Struct.Laws.{pack_total}
use rose_esp.Protocol.Opcodes.{msg_type_cmd}
use rose_esp.Protocol.Frame.{MessageFrame, header_format, calculate_crc, to_bytes, from_bytes}
use rose_esp.Protocol.Frame.Checksum.{crc_format, crc_fields, calculate_crc_residue}
use rose_esp.Protocol.Frame.RoundTrip.{header_fields, from_bytes-to_bytes}
use rose_esp.Protocol.Crc.{crc_loop}
use rose_esp.Server.Connection
use rose_esp.Server.Connection.{Server}
use rose_esp.Server.Connection.Steady.{send_written}
use rose_esp.Dispatcher.{
  CommandDispatcher, following, get_next_cmd_id, command_frame, next_write, later_writes,
  send_frame, send_built, send_command,
}
use rose_esp.Dispatcher.Ids.{IsCmdId}

-- The frame of a command, as the device should read it.
pub record IsCommandFrame (opcode : ℕ) (body : Bytes) (n : ℕ) (f : MessageFrame) : Type 0 where
  pub version : f.version ≡ pos 1
  pub msg_type : f.msg_type ≡ pos msg_type_cmd
  pub sized : f.length ≡ pos (length f.payload)
  pub cmd_id : f.cmd_id ≡ pos n
  pub payload : f.payload ≡ opcode ∷ body
  pub checked : calculate_crc f ≡ ok f.crc

abbrev unchecked : ℕ → Bytes → ℕ → MessageFrame
unchecked opcode payload cmd_id = record {
  version = pos 1;
  msg_type = pos msg_type_cmd;
  length = pos (length payload + 1);
  cmd_id = pos cmd_id;
  crc = pos 0;
  payload = opcode ∷ payload;
}

calculate_crc_total :
    (f : MessageFrame) {header : Bytes}
    → pack crc_format (crc_fields f) ≡ ok header
    → (v : ℤ) × (calculate_crc f ≡ ok v)
unfolding calculate_crc
calculate_crc_total f {header} p = (pos (crc_loop 0xFFFF (header ++ f.payload)), rw (p, ◌>>=◌))

to_bytes_total :
    (f : MessageFrame) {header : Bytes}
    → pack header_format (header_fields f) ≡ ok header
    → (bytes : Bytes) × (to_bytes f ≡ ok bytes)
unfolding to_bytes
to_bytes_total f {header} p = (header ++ f.payload, rw (p, ◌>>=◌))

checked_bytes :
    (opcode : ℕ) (payload : Bytes) (cmd_id c : ℕ)
    → length payload < 65535
    → IsCmdId cmd_id
    → c < 65536
    → (bytes : Bytes) × (to_bytes (record (unchecked opcode payload cmd_id) { crc = pos c })
        ≡ ok bytes)
checked_bytes opcode payload cmd_id c l i lt =
    let f : MessageFrame = record (unchecked opcode payload cmd_id) { crc = pos c } in
    let (_, r) = pack_total header_format (header_fields f) (omega arith) in to_bytes_total f r

calculate_crc_ignores :
    (f : MessageFrame) (v : ℤ) → calculate_crc (record f { crc = v }) ≡ calculate_crc f
unfolding calculate_crc
calculate_crc_ignores f v = refl

command_frame-eq :
    (opcode : ℕ) (payload : Bytes) (cmd_id : ℕ) {v : ℤ}
    → opcode < 256
    → calculate_crc (unchecked opcode payload cmd_id) ≡ ok v
    → command_frame opcode payload cmd_id
      ≡ ok (record (unchecked opcode payload cmd_id) { crc = v })
unfolding command_frame
command_frame-eq opcode payload cmd_id o q =
    let t : ltb opcode 256 ≡ true = ground arith in rw (t, ◌>>=◌) (rw (q, ◌>>=◌))

-- A command whose payload fits gets a frame that can be written.
command_frame_total :
    (opcode : ℕ) (payload : Bytes) (cmd_id : ℕ)
    → opcode < 256
    → length payload < 65535
    → IsCmdId cmd_id
    → All IsByte payload
    → (f : MessageFrame) × (bytes : Bytes) × (command_frame opcode payload cmd_id ≡ ok f)
      × IsCommandFrame opcode payload cmd_id f
      × (to_bytes f ≡ ok bytes)
command_frame_total opcode payload cmd_id o l i b =
    let g = unchecked opcode payload cmd_id in
    let (h, p) = pack_total crc_format (crc_fields g) (omega arith) in
    let (v, q) = calculate_crc_total g p in
    let (_, c, _, ev, lt, _) = calculate_crc_residue g (o, b) q in
    let (bytes, w) = checked_bytes opcode payload cmd_id c l i lt in
    (
      record g { crc = v },
      bytes,
      command_frame-eq opcode payload cmd_id o q,
      record {
        version = refl;
        msg_type = refl;
        sized = ap pos (omega arith);
        cmd_id = refl;
        payload = refl;
        checked = calculate_crc_ignores g v ∙ q;
      },
      rw ev w,
    )

send_command-sent :
    (opcode : ℕ) (payload : Bytes) (d : CommandDispatcher) {f : MessageFrame} {server : Server}
    → command_frame opcode payload d.next_cmd_id ≡ ok f
    → Connection.send_command (next_write d.writes) f d.server ≡ (true, server)
    → send_command opcode payload d ≡ (
      ok (some (pos d.next_cmd_id)),
      record {
        next_cmd_id = following d.next_cmd_id;
        server = server;
        writes = later_writes d.writes;
      },
    )
unfolding send_command get_next_cmd_id send_frame
send_command-sent opcode payload d built sent = rw (built, send_built) (rw sent)

-- From a connected dispatcher, a command whose opcode is a byte and whose payload is of at most
-- 65534 bytes is sent if `sendall` returns: the next command id is returned and used up, and the
-- bytes go to the client's socket. Read as a frame, whatever follows them, they are a command of
-- version 1 with this id, the opcode before the payload, the payload's length and the right
-- checksum.
pub send_command-IsCommandFrame :
    (opcode : ℕ) (payload more : Bytes) (socket : ℕ) (d : CommandDispatcher)
    → opcode < 256
    → length payload < 65535
    → All IsByte payload
    → IsCmdId d.next_cmd_id
    → d.server.connected ≡ true
    → d.server.client_socket ≡ some socket
    → next_write d.writes ≡ true
    → (f : MessageFrame) × (bytes : Bytes) × (send_command opcode payload d ≡ (
      ok (some (pos d.next_cmd_id)),
      record {
        next_cmd_id = following d.next_cmd_id;
        server = record d.server { sent = (socket, bytes) ∷ d.server.sent };
        writes = later_writes d.writes;
      },
    ))
      × (from_bytes (bytes ++ more) ≡ ok f)
      × IsCommandFrame opcode payload d.next_cmd_id f
send_command-IsCommandFrame opcode payload more socket d o l b i c s w =
    let (f, bytes, built, shape, written) =
      command_frame_total opcode payload d.next_cmd_id o l i b in
    let sent = send_written socket true f bytes d.server s c refl written in
    (
      f,
      bytes,
      send_command-sent opcode payload d built (rw w sent),
      from_bytes-to_bytes f more shape.sized written,
      shape,
    )

command_frame_oversized :
    (opcode : ℕ) (payload : Bytes) (cmd_id : ℕ)
    → opcode < 256
    → 65535 ≤ length payload
    → command_frame opcode payload cmd_id ≡ err struct_error
unfolding command_frame calculate_crc pack
command_frame_oversized opcode payload cmd_id o l = ground arith

-- A payload of 65535 bytes or more cannot be framed: `struct.pack` raises, the server is left as
-- it was, and the command id is used up.
pub send_command_oversized :
    (opcode : ℕ) (payload : Bytes) (d : CommandDispatcher)
    → opcode < 256
    → 65535 ≤ length payload
    → send_command opcode payload d
      ≡ (err struct_error, record d { next_cmd_id = following d.next_cmd_id })
unfolding send_command get_next_cmd_id
send_command_oversized opcode payload d o l =
    rw (command_frame_oversized opcode payload d.next_cmd_id o l)
