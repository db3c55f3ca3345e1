-- ===== src/Server/Connection/Steady.antt =====
-- A connection over the sections of the threads: what second starts, the handlers of other sockets
-- and sends leave of it (bridge/src/server.py).
use rose_esp.Prelude.{
  ℕ, ◌≡◌, ◌≢◌, refl, ap, Bool, true, some, List, [], ◌∷◌, ◌++◌, arith, All, ◌⊎◌, inl, inr,
}
use rose_esp.Prelude.Result.{ok}
use rose_esp.Struct.{Bytes}
use rose_esp.Protocol.Frame.{MessageFrame, to_bytes}
use rose_esp.Server.Connection.{Server, start, handle_disconnect, transmit, send_command}
use rose_esp.Server.Connection.Laws.{
  Section, starts, stops, accepts, disconnects, sends, Reach, here, next,
}

abbrev pub IsIn : ℕ → List ℕ → Type 0
IsIn x [] = ⊥
IsIn x (y ∷ ys) = (y ≡ x) ⊎ IsIn x ys

-- The sections that the connection to `n` is to outlive: a second start, the end of another socket's
-- handler, and a send whose frame can be written and whose `sendall` returns.
abbrev pub Spares : ℕ → {s t : Server} → Section s t → Type 0
Spares n (starts binds) = Unit {0}
Spares n stops = ⊥
Spares n (accepts socket address) = ⊥
Spares n (disconnects socket) = socket ≢ n
Spares n (sends writes frame) = (writes ≡ true) × (bytes : Bytes) × (to_bytes frame ≡ ok bytes)

unfoldable pub AllSpare : ℕ → {s t : Server} → Reach s t → Type 0
AllSpare n here = Unit {0}
AllSpare n (next r section) = Spares n section × AllSpare n r

-- The server is connected to `n`, which was not closed since `s`, and all that was sent since then
-- went to `n`.
pub record Serves (n : ℕ) (s t : Server) : Type 0 where
  pub current : t.client_socket ≡ some n
  pub flag : t.connected ≡ true
  pub not_closed : IsIn n t.closed → IsIn n s.closed
  pub sent : (more : List (ℕ × Bytes)) × (t.sent ≡ more ++ s.sent) × All (λ p. p.0 ≡ n) more

pub start-eq : (binds : List Bool) (s : Server) → (start binds s).1 ≡ record s { running = true }
unfolding start
start-eq binds s = ground arith

disconnect_other :
    (socket n : ℕ) (s : Server)
    → s.client_socket ≡ some n
    → socket ≢ n
    → handle_disconnect (some socket) s ≡ record s { closed = socket ∷ s.closed }
unfolding handle_disconnect
disconnect_other socket n s c d = ground arith

pub send_written :
    (n : ℕ) (writes : Bool) (frame : MessageFrame) (bytes : Bytes) (s : Server)
    → s.client_socket ≡ some n
    → s.connected ≡ true
    → writes ≡ true
    → to_bytes frame ≡ ok bytes
    → send_command writes frame s ≡ (true, record s { sent = (n, bytes) ∷ s.sent })
unfolding send_command transmit
send_written n writes frame bytes s c f w b = ground arith

Section-Serves :
    (n : ℕ) {s t u : Server} (section : Section t u)
    → Spares n section
    → Serves n s t
    → Serves n s u
Section-Serves n {s} {t} (starts binds) p v =
    rw (start-eq binds t)
      (record { current = v.current; flag = v.flag; not_closed = v.not_closed; sent = v.sent })
Section-Serves n stops p v = elim p [ ]
Section-Serves n (accepts socket address) p v = elim p [ ]
Section-Serves n {s} {t} (disconnects socket) p v =
    rw (disconnect_other socket n t v.current p) (record {
      current = v.current;
      flag = v.flag;
      not_closed = λ i. elim i [ inl e ↦ absurd (p e) | inr j ↦ v.not_closed j ];
      sent = v.sent;
    })
Section-Serves n {s} {t} (sends writes frame) (w, bytes, b) v =
    let (more, e, a) = v.sent in
    rw (send_written n writes frame bytes t v.current v.flag w b) (record {
      current = v.current;
      flag = v.flag;
      not_closed = v.not_closed;
      sent = ((n, bytes) ∷ more, ap (λ rest. (n, bytes) ∷ rest) e, (refl, a));
    })

-- From a server that is connected to `n`, over any second starts, ends of other sockets' handlers,
-- and sends whose frame can be written and whose `sendall` returns, in any order, the server stays
-- connected to `n`, `n` is not closed, and all that is sent goes to `n`.
pub Reach-Serves :
    (n : ℕ) {s t : Server} (r : Reach s t)
    → s.client_socket ≡ some n
    → s.connected ≡ true
    → AllSpare n r
    → Serves n s t
unfolding AllSpare
Reach-Serves n here c f a = record {
  current = c;
  flag = f;
  not_closed = λ i. i;
  sent = ([], refl, tt);
}
Reach-Serves n (next r section) c f (p, a) = Section-Serves n section p (Reach-Serves n r c f a)
