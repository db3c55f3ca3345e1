-- ===== src/Server/Connection/Laws.antt =====
-- The connection: the flag and the socket agree, and what a failed start leaves behind.
use rose_esp.Prelude.{
  ℕ, zero, suc, ◌≤◌, ◌≡◌, refl, Bool, true, false, Option, none, some, List, [], ◌∷◌, arith, length,
  All, if◌then◌else◌, inl, inr, Option-cases,
}
use rose_esp.Prelude.Result.{Result, ok, err, other_error}
use rose_esp.Struct.{Bytes}
use rose_esp.Protocol.Frame.{MessageFrame, to_bytes}
use rose_esp.Server.Connection.{
  Server, bind_loop, start, stop, accept, handle_disconnect, transmit, send_command,
}

abbrev pub is_some {ℓ} : {A : Type ℓ} → Option A → Bool
is_some none = false
is_some (some a) = true

-- `connected` says whether there is a client socket.
abbrev pub IsConsistent : Server → Type 0
IsConsistent s = s.connected ≡ is_some s.client_socket

-- One locked section, by whichever thread.
pub data Section (s : Server) : Server → Type 0 where
  starts : (binds : List Bool) → Section s (start binds s).1
  stops : Section s (stop s)
  accepts : (socket address : ℕ) → Section s (accept socket address s)
  disconnects : (socket : ℕ) → Section s (handle_disconnect (some socket) s)
  sends : (writes : Bool) (frame : MessageFrame) → Section s (send_command writes frame s).1

pub data Reach (s : Server) : Server → Type 0 where
  here : Reach s s
  next : {t u : Server} → Reach s t → Section t u → Reach s u

stop-IsConsistent : (s : Server) → IsConsistent s → IsConsistent (stop s)
unfolding stop
stop-IsConsistent s h = ground arith

handle_disconnect-IsConsistent :
    (o : Option ℕ) (s : Server) → IsConsistent s → IsConsistent (handle_disconnect o s)
unfolding handle_disconnect
handle_disconnect-IsConsistent none s h = ground arith
handle_disconnect-IsConsistent (some socket) s h = ground arith

transmit-IsConsistent :
    (writes : Bool) (socket : ℕ) (r : Result Bytes) (s : Server)
    → IsConsistent s
    → IsConsistent (transmit writes socket r s).1
unfolding transmit
transmit-IsConsistent writes socket (err e) s h = handle_disconnect-IsConsistent none s h
transmit-IsConsistent true socket (ok bytes) s h = h
transmit-IsConsistent false socket (ok bytes) s h = handle_disconnect-IsConsistent none s h

send_command-IsConsistent :
    (writes : Bool) (frame : MessageFrame) (s : Server)
    → IsConsistent s
    → IsConsistent (send_command writes frame s).1
unfolding send_command
send_command-IsConsistent writes frame s h = elim (Option-cases s.client_socket) [
  | inl n ↦ ground arith
  | inr (socket, e) ↦ ground (arith, transmit-IsConsistent writes socket (to_bytes frame) s h)
]

Section-IsConsistent : {s t : Server} → Section s t → IsConsistent s → IsConsistent t
Section-IsConsistent {s} (starts binds) h = unfold start in ground arith
Section-IsConsistent {s} stops h = stop-IsConsistent s h
Section-IsConsistent {s} (accepts socket address) h = unfold accept in refl
Section-IsConsistent {s} (disconnects socket) h = handle_disconnect-IsConsistent (some socket) s h
Section-IsConsistent {s} (sends writes frame) h = send_command-IsConsistent writes frame s h

-- In every order of the threads' sections from a consistent server, `connected` says whether there is a client socket.
pub Reach-IsConsistent : {s t : Server} → IsConsistent s → Reach s t → IsConsistent t
Reach-IsConsistent h here = h
Reach-IsConsistent h (next r st) = Section-IsConsistent st (Reach-IsConsistent h r)

bind_loop_fails :
    (n : ℕ) (binds : List Bool)
    → n ≤ length binds
    → All (λ b. b ≡ false) binds
    → bind_loop n binds ≡ err other_error
unfolding bind_loop
bind_loop_fails zero binds h a = refl
bind_loop_fails (suc n) [] h a = absurd (omega arith)
bind_loop_fails (suc n) (b ∷ bs) h a =
    rw (a.0, if◌then◌else◌) (bind_loop_fails n bs (omega arith) a.1)

-- If the port stays taken for all hundred attempts, `start` raises, and it leaves `running` set:
-- a second `start` then returns at once and binds nothing, whatever the port does by now.
pub start_again :
    (binds later : List Bool) (s : Server)
    → s.running ≡ false
    → 100 ≤ length binds
    → All (λ b. b ≡ false) binds
    → ((start binds s).0 ≡ err other_error)
      × (start later (start binds s).1 ≡ (ok tt, (start binds s).1))
unfolding start
start_again binds later s r n a =
    let fails = bind_loop_fails 100 binds n a in (ground arith, ground arith)
