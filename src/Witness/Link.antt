-- ===== src/Witness/Link.antt =====
-- Tests of the connection's state.
use rose_esp.Prelude.{ℕ, zero, suc, ◌≡◌, refl, arith, Bool, true, false, some, List, [], ◌∷◌, inl}
use rose_esp.Prelude.Result.{ok, err, other_error}
use rose_esp.Struct.{pack, encode, unsigned, le_bytes}
use rose_esp.Protocol.Frame.{to_bytes}
use rose_esp.Server.Connection.{new, start, accept, handle_disconnect, send_command}
use rose_esp.Server.Connection.Laws.{
  IsConsistent, Reach, here, next, accepts, disconnects, sends, Reach-IsConsistent, start_again,
}
use rose_esp.Server.Connection.Steady.{AllSpare, Serves, Reach-Serves}
use rose_esp.Server.Connection.Lifetime.{accepted, IsKept, Reach-IsKept}
use rose_esp.Witness.Data.{ack_frame, ack_bytes, connected_server}

Reach-IsConsistent_example : IsConsistent (handle_disconnect (some 4) (accept 5 9 connected_server))
Reach-IsConsistent_example =
    Reach-IsConsistent {s = connected_server} refl (next (next here (accepts 5 9)) (disconnects 4))

ack_sent : to_bytes ack_frame ≡ ok ack_bytes
unfolding to_bytes pack encode unsigned le_bytes
ack_sent = refl

-- Another socket's handler ends, and a command is sent.
abbrev calm :
    Reach connected_server
      (send_command true ack_frame (handle_disconnect (some 3) connected_server)).1
calm = next (next here (disconnects 3)) (sends true ack_frame)

Reach-Serves_example :
    Serves 4 connected_server
      (send_command true ack_frame (handle_disconnect (some 3) connected_server)).1
unfolding AllSpare
Reach-Serves_example =
    Reach-Serves 4 calm refl refl ((refl, ack_bytes, ack_sent), (omega arith, tt))

-- Another client comes and goes again.
abbrev replaced : Reach connected_server (handle_disconnect (some 5) (accept 5 9 connected_server))
replaced = next (next here (accepts 5 9)) (disconnects 5)

Reach-IsKept_example : IsKept 5 (handle_disconnect (some 5) (accept 5 9 connected_server))
unfolding accepted
Reach-IsKept_example = Reach-IsKept replaced 5 (inl refl)

-- A client comes to a new server and is sent a frame.
abbrev served : Reach new (send_command true ack_frame (accept 5 9 new)).1
served = next (next here (accepts 5 9)) (sends true ack_frame)

abbrev taken : ℕ → List Bool
taken zero = []
taken (suc n) = false ∷ taken n

start_again_example :
    ((start (taken 100) new).0 ≡ err other_error)
    × (start (true ∷ []) (start (taken 100) new).1 ≡ (ok tt, (start (taken 100) new).1))
start_again_example = start_again (taken 100) (true ∷ []) new refl (omega arith) (ground arith)
