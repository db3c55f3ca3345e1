-- ===== src/Server/Connection/Lifetime.antt =====
-- The client's sockets over the sections of the threads: none is lost, and nothing is sent to one that
-- was not accepted (bridge/src/server.py).
use rose_esp.Prelude.{
  ℕ, ◌≡◌, ap, Bool, true, false, Option, none, some, List, [], ◌∷◌, arith, All, ◌⊎◌, inl, inr,
  Option-cases,
}
use rose_esp.Prelude.Result.{Result, ok, err}
use rose_esp.Struct.{Bytes}
use rose_esp.Protocol.Frame.{MessageFrame, to_bytes}
use rose_esp.Server.Connection.{
  Server, start, stop, accept, handle_disconnect, transmit, send_command,
}
use rose_esp.Server.Connection.Laws.{
  Section, starts, stops, accepts, disconnects, sends, Reach, here, next,
}
use rose_esp.Server.Connection.Steady.{IsIn, start-eq}

-- The sockets that were accepted on the way.
unfoldable pub accepted : {s t : Server} → Reach s t → List ℕ
accepted here = []
accepted (next r (starts binds)) = accepted r
accepted (next r stops) = accepted r
accepted (next r (accepts socket address)) = socket ∷ accepted r
accepted (next r (disconnects socket)) = accepted r
accepted (next r (sends writes frame)) = accepted r

-- A socket that is not lost: the current one, or one that was closed.
abbrev pub IsKept : ℕ → Server → Type 0
IsKept x s = (s.client_socket ≡ some x) ⊎ IsIn x s.closed

start-IsKept : (x : ℕ) (binds : List Bool) (s : Server) → IsKept x s → IsKept x (start binds s).1
start-IsKept x binds s k = rw (start-eq binds s) k

stop-IsKept : (x : ℕ) (s : Server) → IsKept x s → IsKept x (stop s)
unfolding stop
stop-IsKept x s k = ground arith

accept-IsKept :
    (x socket address : ℕ) (s : Server) → IsKept x s → IsKept x (accept socket address s)
unfolding accept
accept-IsKept x socket address s k = ground arith

disconnect-IsKept :
    (x : ℕ) (o : Option ℕ) (s : Server) → IsKept x s → IsKept x (handle_disconnect o s)
unfolding handle_disconnect
disconnect-IsKept x none s k = ground arith
disconnect-IsKept x (some socket) s k = ground arith

transmit-IsKept :
    (x : ℕ) (writes : Bool) (socket : ℕ) (r : Result Bytes) (s : Server)
    → IsKept x s
    → IsKept x (transmit writes socket r s).1
unfolding transmit
transmit-IsKept x writes socket (err e) s k = disconnect-IsKept x none s k
transmit-IsKept x true socket (ok bytes) s k = k
transmit-IsKept x false socket (ok bytes) s k = disconnect-IsKept x none s k

send_command-IsKept :
    (x : ℕ) (writes : Bool) (frame : MessageFrame) (s : Server)
    → IsKept x s
    → IsKept x (send_command writes frame s).1
unfolding send_command
send_command-IsKept x writes frame s k = elim (Option-cases s.client_socket) [
  | inl n ↦ ground arith
  | inr (socket, e) ↦ ground (arith, transmit-IsKept x writes socket (to_bytes frame) s k)
]

Section-IsKept : (x : ℕ) {s t : Server} → Section s t → IsKept x s → IsKept x t
Section-IsKept x {s} (starts binds) k = start-IsKept x binds s k
Section-IsKept x {s} stops k = stop-IsKept x s k
Section-IsKept x {s} (accepts socket address) k = accept-IsKept x socket address s k
Section-IsKept x {s} (disconnects socket) k = disconnect-IsKept x (some socket) s k
Section-IsKept x {s} (sends writes frame) k = send_command-IsKept x writes frame s k

-- In every order of the threads' sections from any server, each socket that was accepted on the way
-- is the current one or has been closed.
pub Reach-IsKept : {s t : Server} (r : Reach s t) (x : ℕ) → IsIn x (accepted r) → IsKept x t
unfolding accepted
Reach-IsKept here x i = elim i [ ]
Reach-IsKept (next r (starts binds)) x i = Section-IsKept x (starts binds) (Reach-IsKept r x i)
Reach-IsKept (next r stops) x i = Section-IsKept x stops (Reach-IsKept r x i)
Reach-IsKept (next r (accepts socket address)) x i = elim i [
  | inl e ↦ unfold accept in inl (ap (λ y. some y) e)
  | inr j ↦ Section-IsKept x (accepts socket address) (Reach-IsKept r x j)
]
Reach-IsKept (next r (disconnects socket)) x i =
    Section-IsKept x (disconnects socket) (Reach-IsKept r x i)
Reach-IsKept (next r (sends writes frame)) x i =
    Section-IsKept x (sends writes frame) (Reach-IsKept r x i)

-- The current socket, and those that something was sent to, are among these.
pub record IsKnown (sockets : List ℕ) (s : Server) : Type 0 where
  pub current : (x : ℕ) → s.client_socket ≡ some x → IsIn x sockets
  pub sent : All (λ p. IsIn p.0 sockets) s.sent
